-- ===== src/Pipe/Tests.antt =====
-- Pipes at concrete inputs.
use type_os.Base.{◌≡◌, [], ◌∷◌, arith, replicate}
use type_os.CString.{Bytes}
use type_os.Pipe.{Pipe, cleared, pipe_write, contents}
use type_os.Pipe.Invariant.{IsValid}
use type_os.Pipe.Queue.{pipe_write-append}

cleared-IsValid : IsValid cleared
cleared-IsValid = omega arith

abbrev hello : Bytes
hello = 104 ∷ 105 ∷ 10 ∷ []

pipe_write-append_example :
    (contents (pipe_write cleared hello).1 ≡ hello) × ((pipe_write cleared hello).0 ≡ 3)
pipe_write-append_example = pipe_write-append cleared hello cleared-IsValid

abbrev three_in : Pipe
three_in = record cleared { buf = 104 ∷ 105 ∷ 10 ∷ replicate 4093 0; head = 3; count = 3 }

three_in-IsValid : IsValid three_in
three_in-IsValid = omega arith
