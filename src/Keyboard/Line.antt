-- ===== src/Keyboard/Line.antt =====
-- The line editor `get_string` of core/drivers/keyboard.c.
use type_os.Base.{
  ℕ, zero, suc, ◌+◌, ◌-◌, ◌<◌, ◌≤◌, ◌≡◌, ◌≢◌, refl, true, false, Bool, ◌==◌, ltb, leb, length,
  arith, get_or, set, ap, sym, ◌∙◌, get_or-set_self, get_or-set_ne, length-set, ltb→lt,
}
use type_os.CString.{Bytes}
use type_os.Keyboard.{
  Editor, again, shift_left, shift_right, edit_key, str_size, key_left, key_right,
}

abbrev at : Bytes → ℕ → ℕ
at s i = get_or s i 0

shift_right-length : (n cursor : ℕ) (s : Bytes) → length (shift_right n cursor s) ≡ length s
unfolding shift_right
shift_right-length zero cursor s = refl
shift_right-length (suc n) cursor s =
    shift_right-length n cursor (set s (cursor + suc n) (at s (cursor + n)))
    ∙ length-set s (cursor + suc n) (at s (cursor + n))

shift_left-length : (n i : ℕ) (s : Bytes) → length (shift_left n i s) ≡ length s
unfolding shift_left
shift_left-length zero i s = refl
shift_left-length (suc n) i s =
    shift_left-length n (suc i) (set s i (at s (suc i))) ∙ length-set s i (at s (suc i))

-- Outside of the places that it moves the shift changes nothing.
shift_right_below :
    (n cursor i : ℕ) (s : Bytes) → i ≤ cursor → at (shift_right n cursor s) i ≡ at s i
unfolding shift_right
shift_right_below zero cursor i s h = refl
shift_right_below (suc n) cursor i s h =
    shift_right_below n cursor i (set s (cursor + suc n) (at s (cursor + n))) h
    ∙ get_or-set_ne s (cursor + suc n) i (at s (cursor + n)) 0 (omega arith)

shift_right_above :
    (n cursor i : ℕ) (s : Bytes) → cursor + n < i → at (shift_right n cursor s) i ≡ at s i
unfolding shift_right
shift_right_above zero cursor i s h = refl
shift_right_above (suc n) cursor i s h =
    shift_right_above n cursor i (set s (cursor + suc n) (at s (cursor + n))) (omega arith)
    ∙ get_or-set_ne s (cursor + suc n) i (at s (cursor + n)) 0 (omega arith)

-- The `d`-th place behind the cursor gets what stood one place before it.
shift_right_moves :
    (n cursor d : ℕ) (s : Bytes)
    → d < n
    → cursor + n < length s
    → at (shift_right n cursor s) (cursor + suc d) ≡ at s (cursor + d)
unfolding shift_right
shift_right_moves zero cursor d s h l = absurd (omega arith)
shift_right_moves (suc n) cursor d s h l = on (ltb d n) refl (λ q.
    shift_right_moves n cursor d (set s (cursor + suc n) (at s (cursor + n))) q
      (omega (arith, length-set s (cursor + suc n) (at s (cursor + n)))))
  where
    s' : Bytes
    s' = set s (cursor + suc n) (at s (cursor + n))

    last : d ≡ n → at (shift_right n cursor s') (cursor + suc d) ≡ at s (cursor + d)
    last e =
        shift_right_above n cursor (cursor + suc d) s' (omega arith)
        ∙ ap (λ k. at s' (cursor + suc k)) e
        ∙ get_or-set_self s (cursor + suc n) (at s (cursor + n)) 0 l
        ∙ ap (λ k. at s (cursor + k)) (sym e)

    others :
        (at (shift_right n cursor s') (cursor + suc d) ≡ at s' (cursor + d))
        → at (shift_right n cursor s') (cursor + suc d) ≡ at s (cursor + d)
    others ih =
        ih ∙ get_or-set_ne s (cursor + suc n) (cursor + d) (at s (cursor + n)) 0 (omega arith)

    on :
        (b : Bool)
        → ltb d n ≡ b
        → (d < n → at (shift_right n cursor s') (cursor + suc d) ≡ at s' (cursor + d))
        → at (shift_right n cursor s') (cursor + suc d) ≡ at s (cursor + d)
    on true e ih = others (ih (ltb→lt d n e))
    on false e ih = last (ground arith)

shift_left_below : (n i j : ℕ) (s : Bytes) → j < i → at (shift_left n i s) j ≡ at s j
unfolding shift_left
shift_left_below zero i j s h = refl
shift_left_below (suc n) i j s h =
    shift_left_below n (suc i) j (set s i (at s (suc i))) (omega arith)
    ∙ get_or-set_ne s i j (at s (suc i)) 0 (omega arith)

-- The `d`-th place from `i` on gets what stood one place behind it.
shift_left_moves :
    (n i d : ℕ) (s : Bytes)
    → d < n
    → i + n < length s
    → at (shift_left n i s) (i + d) ≡ at s (i + suc d)
unfolding shift_left
shift_left_moves zero i d s h l = absurd (omega arith)
shift_left_moves (suc n) i zero s h l =
    ap (at (shift_left n (suc i) (set s i (at s (suc i))))) (plus_zero i)
    ∙ shift_left_below n (suc i) i (set s i (at s (suc i))) (omega arith)
    ∙ get_or-set_self s i (at s (suc i)) 0 (omega arith)
    ∙ ap (at s) (plus_one i)
  where
    plus_zero : (i : ℕ) → i + 0 ≡ i
    plus_zero i = omega arith

    plus_one : (i : ℕ) → suc i ≡ i + 1
    plus_one i = omega arith
shift_left_moves (suc n) i (suc d) s h l =
    ap (at (shift_left n (suc i) (set s i (at s (suc i))))) (next i d)
    ∙ shift_left_moves n (suc i) d (set s i (at s (suc i))) (omega arith)
        (omega (arith, length-set s i (at s (suc i))))
    ∙ get_or-set_ne s i (suc i + suc d) (at s (suc i)) 0 (omega arith)
    ∙ ap (at s) (sym (next i (suc d)))
  where
    next : (i d : ℕ) → i + suc d ≡ suc i + d
    next i d = omega arith

-- The line fits into its object with a terminator, and the cursor stands in it or at its end.
pub record IsValid (e : Editor) : Type 0 where
  pub storage : length e.str ≡ str_size
  pub len_in : e.len < str_size
  pub cursor_in : e.cursor ≤ e.len

-- A character at the cursor: the ones before it stay, the ones from it on move one place up.
pub record Inserts (c : ℕ) (e e' : Editor) : Type 0 where
  pub valid : IsValid e'
  pub longer : e'.len ≡ e.len + 1
  pub right : e'.cursor ≡ e.cursor + 1
  pub before : (i : ℕ) → i < e.cursor → at e'.str i ≡ at e.str i
  pub here : at e'.str e.cursor ≡ c
  pub after :
      (d : ℕ) → e.cursor + d < e.len → at e'.str (e.cursor + suc d) ≡ at e.str (e.cursor + d)

-- The character before the cursor goes: the ones before it stay, the ones behind it move one place down.
pub record Deletes (e e' : Editor) : Type 0 where
  pub valid : IsValid e'
  pub shorter : e'.len + 1 ≡ e.len
  pub left : e'.cursor + 1 ≡ e.cursor
  pub before : (i : ℕ) → i < e'.cursor → at e'.str i ≡ at e.str i
  pub after :
      (d : ℕ) → e'.cursor + d < e'.len → at e'.str (e'.cursor + d) ≡ at e.str (e'.cursor + suc d)

inserted : ℕ → Editor → Editor
inserted c e = record {
  str = set (shift_right (e.len - e.cursor) e.cursor e.str) e.cursor c;
  len = e.len + 1;
  cursor = e.cursor + 1;
}

inserted-Inserts :
    (c : ℕ) (e : Editor) → IsValid e → e.len < str_size - 1 → Inserts c e (inserted c e)
unfolding inserted
inserted-Inserts c e v room =
    let n = e.len - e.cursor in
    let s = shift_right n e.cursor e.str in
    let len : length s ≡ length e.str = shift_right-length n e.cursor e.str in
    record {
      valid = record {
        storage = length-set s e.cursor c ∙ len ∙ v.storage;
        len_in = omega arith;
        cursor_in = omega (arith, v.cursor_in);
      };
      longer = refl;
      right = refl;
      before = λ i h.
          get_or-set_ne s e.cursor i c 0 (omega arith)
          ∙ shift_right_below n e.cursor i e.str (omega arith);
      here = get_or-set_self s e.cursor c 0 (omega (arith, len, v.storage, v.len_in, v.cursor_in));
      after = λ d h.
          get_or-set_ne s e.cursor (e.cursor + suc d) c 0 (omega arith)
          ∙ shift_right_moves n e.cursor d e.str (omega arith)
              (omega (arith, v.storage, v.len_in, v.cursor_in));
    }

deleted : Editor → Editor
deleted e = record {
  str = shift_left (e.len - (e.cursor - 1)) (e.cursor - 1) e.str;
  len = e.len - 1;
  cursor = e.cursor - 1;
}

deleted-Deletes : (e : Editor) → IsValid e → 0 < e.cursor → Deletes e (deleted e)
unfolding deleted
deleted-Deletes e v some_left =
    let n = e.len - (e.cursor - 1) in
    record {
      valid = record {
        storage = shift_left-length n (e.cursor - 1) e.str ∙ v.storage;
        len_in = omega (arith, v.len_in);
        cursor_in = omega (arith, v.cursor_in);
      };
      shorter = omega (arith, v.cursor_in);
      left = omega arith;
      before = λ i h. shift_left_below n (e.cursor - 1) i e.str h;
      after = λ d h.
          shift_left_moves n (e.cursor - 1) d e.str (omega arith)
            (omega (arith, v.storage, v.len_in, v.cursor_in));
    }

typed :
    (c : ℕ) (e : Editor)
    → 32 ≤ c
    → c < 127
    → e.len < str_size - 1
    → edit_key c e ≡ again (inserted c e)
unfolding edit_key inserted
typed c e lo hi room = simp (
  other c 10 (omega arith),
  other c key_left (omega arith),
  other c key_right (omega arith),
  other c 8 (omega arith),
  above c lo,
  below c 127 hi,
  below e.len (str_size - 1) room,
)
  where
    other : (a b : ℕ) → a ≢ b → (a == b) ≡ false
    other a b d = ground arith

    above : (a : ℕ) → 32 ≤ a → leb 32 a ≡ true
    above a h = ground arith

    below : (a b : ℕ) → a < b → ltb a b ≡ true
    below a b h = ground arith

erased : (e : Editor) → 0 < e.cursor → edit_key 8 e ≡ again (deleted e)
unfolding edit_key deleted
erased e h = simp (below e.cursor h)
  where
    below : (a : ℕ) → 0 < a → ltb 0 a ≡ true
    below a h = ground arith

-- A printable character is inserted at the cursor of a valid line that has room for it: the characters
-- before the cursor stay, the ones from it on move one place up, and the line stays valid.
pub edit_key-Inserts :
    (c : ℕ) (e : Editor)
    → IsValid e
    → 32 ≤ c
    → c < 127
    → e.len < str_size - 1
    → (e' : Editor) × (edit_key c e ≡ again e') × Inserts c e e'
edit_key-Inserts c e v lo hi room =
    (inserted c e, typed c e lo hi room, inserted-Inserts c e v room)

-- A backspace behind at least one character of a valid line takes out the character before the cursor:
-- the ones before that stay, the ones behind it move one place down, and the line stays valid.
pub edit_key-Deletes :
    (e : Editor)
    → IsValid e
    → 0 < e.cursor
    → (e' : Editor) × (edit_key 8 e ≡ again e') × Deletes e e'
edit_key-Deletes e v h = (deleted e, erased e h, deleted-Deletes e v h)
