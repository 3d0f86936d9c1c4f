-- ===== src/CString/Tests.antt =====
-- The routines of core/string.c at concrete inputs.
use type_os.Base.{◌≡◌, refl, some, [], ◌∷◌, arith, take, negsuc}
use type_os.CString.{Bytes, cstr, strcmp, strncmp, strlen, memcpy}
use type_os.CString.Length.{strlen-cstr}
use type_os.CString.Compare.{compare_text, strcmp-compare_text, strncmp-take}
use type_os.CString.Copy.{memcpy-take}

-- "/a/b" and "/ab"
abbrev path : Bytes
path = 47 ∷ 97 ∷ 47 ∷ 98 ∷ []

abbrev name : Bytes
name = 47 ∷ 97 ∷ 98 ∷ []

abbrev room : Bytes
room = 1 ∷ 1 ∷ 1 ∷ 1 ∷ 1 ∷ 1 ∷ []

strcmp_runs : strcmp (cstr path) (cstr name) ≡ some (negsuc 50)
unfolding strcmp
strcmp_runs = refl

strlen-cstr_example : strlen (cstr path) ≡ some 4
strlen-cstr_example = strlen-cstr path [] (ground arith)

strcmp-compare_text_example : strcmp (cstr path) (cstr name) ≡ some (compare_text path name)
strcmp-compare_text_example = strcmp-compare_text path name [] [] (ground arith) (ground arith)

strncmp-take_example :
    strncmp (cstr path) (cstr name) 2 ≡ some (compare_text (take 2 path) (take 2 name))
strncmp-take_example = strncmp-take 2 path name [] [] (ground arith) (ground arith)

memcpy-take_example : memcpy room path 3 ≡ some (47 ∷ 97 ∷ 47 ∷ 1 ∷ 1 ∷ 1 ∷ [])
memcpy-take_example = memcpy-take 3 room path (omega arith) (omega arith)
