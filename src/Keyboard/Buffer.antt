-- ===== src/Keyboard/Buffer.antt =====
-- The ring of keys of core/drivers/keyboard.c as a queue.
use type_os.Base.{
  ℕ, suc, ◌+◌, ◌-◌, ◌%◌, ◌<◌, ◌≡◌, ◌≢◌, refl, true, false, Option, none, some, List, [], ◌∷◌, ◌==◌,
  if◌then◌else◌, length, arith, ap₂, ◌++◌, get_or, set, ap, ◌∙◌, get_or-set_self, length-set, Bool,
}
use type_os.Ring.{window, window-set, window-snoc}
use type_os.Sched.{sched_wake_all}
use type_os.Keyboard.{Keyboard, buffer_size, keyboard_push, keyboard_getchar}

pub record IsValid (k : Keyboard) : Type 0 where
  pub storage : length k.buffer ≡ buffer_size
  pub head_in : k.head < buffer_size
  pub tail_in : k.tail < buffer_size

-- How many keys wait, and the keys, oldest first.
abbrev pub waiting : Keyboard → ℕ
waiting k = (k.head + buffer_size - k.tail) % buffer_size

abbrev pub keys : Keyboard → List ℕ
keys k = window buffer_size k.buffer k.tail (waiting k)

equal : (a b : ℕ) → (a == b) ≡ true → a ≡ b
equal a b e = ground arith

differ : (a b : ℕ) → (a == b) ≡ false → a ≢ b
differ a b e = ground arith

has_room :
    (h t : ℕ)
    → h < buffer_size
    → t < buffer_size
    → (h + 1) % buffer_size ≢ t
    → (h + buffer_size - t) % buffer_size < 255
has_room h t hh ht d = omega arith

is_full :
    (h t : ℕ)
    → h < buffer_size
    → t < buffer_size
    → (h + 1) % buffer_size ≡ t
    → (h + buffer_size - t) % buffer_size ≡ 255
is_full h t hh ht e = omega arith

one_less :
    (h t : ℕ)
    → h < buffer_size
    → t < buffer_size
    → h ≢ t
    → (h + buffer_size - t) % buffer_size
      ≡ suc ((h + buffer_size - (t + 1) % buffer_size) % buffer_size)
one_less h t hh ht d = omega arith

none_waits : (h t : ℕ) → h < buffer_size → h ≡ t → (h + buffer_size - t) % buffer_size ≡ 0
none_waits h t hh e = omega arith

window_long : (b : List ℕ) (t m n : ℕ) → m ≡ n → window buffer_size b t m ≡ window buffer_size b t n
window_long b t m n e = ap (window buffer_size b t) e

pushed :
    (b : List ℕ) (key h t : ℕ)
    → length b ≡ buffer_size
    → h < buffer_size
    → t < buffer_size
    → (h + buffer_size - t) % buffer_size < 255
    → window buffer_size (set b h key) t (((h + 1) % buffer_size + buffer_size - t) % buffer_size)
      ≡ window buffer_size b t ((h + buffer_size - t) % buffer_size) ++ (key ∷ [])
pushed b key h t l hh ht room =
    let n = (h + buffer_size - t) % buffer_size in
    let longer : ((h + 1) % buffer_size + buffer_size - t) % buffer_size ≡ suc n = omega arith in
    let here : (t + n) % buffer_size ≡ h = omega arith in
    window_long (set b h key) t _ (suc n) longer
    ∙ window-snoc buffer_size (set b h key) t n ht (omega arith)
    ∙ ap₂ (λ w x. w ++ (x ∷ []))
        (window-set buffer_size b key t n 0 h ht (omega arith) (omega arith))
        (ap (λ i. get_or (set b h key) i 0) here ∙ get_or-set_self b h key 0 (omega arith))

-- What a key that comes does to the queue: it is appended while fewer than 255 wait, and dropped, with
-- nothing changed, when 255 do.
abbrev pub Pushes : ℕ → Keyboard → Keyboard → Type 0
Pushes key k k' =
    (waiting k < 255 → keys k' ≡ keys k ++ (key ∷ [])) × (waiting k ≡ 255 → k' ≡ k) × IsValid k'

-- keyboard_push appends the key to the queue of a valid ring while fewer than 255 keys wait, and drops
-- it when 255 do; the ring stays valid.
pub push-Pushes : (key : ℕ) (k : Keyboard) → IsValid k → Pushes key k (keyboard_push key k)
unfolding keyboard_push
push-Pushes key k v = on ((k.head + 1) % buffer_size == k.tail) refl
  where
    room : ((k.head + 1) % buffer_size == k.tail) ≡ false → waiting k < 255
    room e = has_room k.head k.tail v.head_in v.tail_in (differ _ _ e)

    full : ((k.head + 1) % buffer_size == k.tail) ≡ true → waiting k ≡ 255
    full e = is_full k.head k.tail v.head_in v.tail_in (equal _ _ e)

    on :
        (b : Bool)
        → ((k.head + 1) % buffer_size == k.tail) ≡ b
        → Pushes key k (
            if b then k else record k {
              buffer = set k.buffer k.head key;
              head = (k.head + 1) % buffer_size;
              sched = sched_wake_all k.sched;
            })
    on true e = (λ h. absurd (omega (arith, full e)), λ h. refl, v)
    on false e = (
      λ h. pushed k.buffer key k.head k.tail v.storage v.head_in v.tail_in h,
      λ h. absurd (omega (arith, room e)),
      record {
        storage = length-set k.buffer k.head key ∙ v.storage;
        head_in = omega arith;
        tail_in = v.tail_in;
      },
    )

-- The result of taking a key off the queue.
abbrev pub Takes : Keyboard → Option (ℕ × Keyboard) → Type 0
Takes k none = keys k ≡ []
Takes k (some (c, k')) = (keys k ≡ c ∷ keys k') × IsValid k'

took :
    (b : List ℕ) (h t : ℕ)
    → h < buffer_size
    → t < buffer_size
    → (h == t) ≡ false
    → window buffer_size b t ((h + buffer_size - t) % buffer_size)
      ≡ get_or b t 0
        ∷ window buffer_size b
            ((t + 1) % buffer_size)
            ((h + buffer_size - (t + 1) % buffer_size) % buffer_size)
took b h t hh ht d = window_long b t _ (suc _) (one_less h t hh ht (differ h t d))

-- keyboard_getchar takes the oldest key of a valid ring, and waits exactly when there is none.
pub getchar-Takes : (k : Keyboard) → IsValid k → Takes k (keyboard_getchar k)
unfolding keyboard_getchar
getchar-Takes k v = on (k.head == k.tail) refl
  where
    empty :
        (h t : ℕ)
        → (h == t) ≡ true
        → h < buffer_size
        → window buffer_size k.buffer t ((h + buffer_size - t) % buffer_size) ≡ []
    empty h t e l = window_long k.buffer t _ 0 (none_waits h t l (equal h t e))

    on :
        (b : Bool)
        → (k.head == k.tail) ≡ b
        → Takes k (
            if b
            then none
            else some (get_or k.buffer k.tail 0, record k { tail = (k.tail + 1) % buffer_size }))
    on true e = empty k.head k.tail e v.head_in
    on false e = (
      took k.buffer k.head k.tail v.head_in v.tail_in e,
      record { storage = v.storage; head_in = v.head_in; tail_in = omega arith },
    )
