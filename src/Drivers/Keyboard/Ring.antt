-- ===== src/Drivers/Keyboard/Ring.antt =====
-- The ring of drivers/keyboard.c as a list of at most 255 bytes, oldest first.
use cat_os_micro_kernel.Common.{
  ℕ, suc, ◌+◌, ◌%◌, ◌<◌, ◌≡◌, ◌≢◌, ◌⊎◌, refl, ap, true, false, arith, ◌==◌, ==-ne, ltb,
  if◌then◌else◌, none, some, List, [], ◌∷◌, ◌++◌, length, update, Bool-cases, inl, inr,
}
use cat_os_micro_kernel.Types.{success}
use cat_os_micro_kernel.Kernel.{AbiMessage}
use cat_os_micro_kernel.Drivers.Keyboard.{
  Keyboard, put, read_key, byte_response, driver_msg_read, keyboard_driver_handle_message,
}

-- The bytes from index `t` on, around the end of the array.
abbrev pub Holds : (ℕ → ℕ) → ℕ → List ℕ → Type 0
Holds buf t [] = Unit {0}
Holds buf t (x ∷ xs) = (buf t ≡ x) × Holds buf ((t + 1) % 256) xs

pub record IsRing (kb : Keyboard) (xs : List ℕ) : Type 0 where
  pub holds : Holds kb.keyboard_buffer kb.keyboard_tail xs
  pub size : length xs < 256
  pub tail : kb.keyboard_tail < 256
  pub head : kb.keyboard_head ≡ (kb.keyboard_tail + length xs) % 256

-- What a full ring loses.
abbrev pub make_room : List ℕ → List ℕ
make_room [] = []
make_room (x ∷ xs) = if ltb (suc (length xs)) 255 then x ∷ xs else xs

Holds-snoc :
    (buf : ℕ → ℕ) (t h y : ℕ) (xs : List ℕ)
    → t < 256
    → length xs < 256
    → h ≡ (t + length xs) % 256
    → Holds buf t xs
    → Holds (update buf h y) t (xs ++ y ∷ [])
Holds-snoc buf t h y [] ht size e hs = (ground arith, tt)
Holds-snoc buf t h y (x ∷ xs) ht size e (at, hs) =
    let apart : t ≢ h = λ s. omega arith in
    (
      ground arith,
      Holds-snoc buf ((t + 1) % 256) h y xs (omega arith) (omega arith) (omega arith) hs,
    )

length-snoc : (xs : List ℕ) (y : ℕ) → length (xs ++ y ∷ []) ≡ suc (length xs)
length-snoc [] y = refl
length-snoc (x ∷ xs) y = ap suc (length-snoc xs y)

put-some :
    (y : ℕ) (kb : Keyboard) (xs : List ℕ)
    → IsRing kb xs
    → length xs < 255
    → IsRing (put y kb) (xs ++ y ∷ [])
unfolding put
put-some y kb xs r room =
    let apart : ((kb.keyboard_head + 1) % 256 == kb.keyboard_tail) ≡ false =
      ==-ne _ _ (λ e. omega (arith, r.head, r.tail)) in
    rw apart (record {
      holds =
          Holds-snoc kb.keyboard_buffer kb.keyboard_tail kb.keyboard_head y xs r.tail r.size r.head
            r.holds;
      size = omega (arith, length-snoc xs y);
      tail = r.tail;
      head = omega (arith, length-snoc xs y, r.head);
    })

-- A ring without its oldest byte.
IsRing-tail :
    (kb : Keyboard) (x : ℕ) (xs : List ℕ)
    → IsRing kb (x ∷ xs)
    → IsRing (record kb { keyboard_tail = (kb.keyboard_tail + 1) % 256 }) xs
IsRing-tail kb x xs r = record {
  holds = r.holds.1;
  size = omega (arith, r.size);
  tail = omega arith;
  head = omega (arith, r.head);
}

put-full :
    (y : ℕ) (kb : Keyboard) (x : ℕ) (xs : List ℕ)
    → IsRing kb (x ∷ xs)
    → length xs ≡ 254
    → IsRing (put y kb) (xs ++ y ∷ [])
unfolding put
put-full y kb x xs r full =
    let t = IsRing-tail kb x xs r in
    let next : (kb.keyboard_tail + 1) % 256 < 256 = omega arith in
    let meets : (kb.keyboard_head + 1) % 256 ≡ kb.keyboard_tail =
      omega (arith, r.head, r.tail, full) in
    let meets_test : ((kb.keyboard_head + 1) % 256 == kb.keyboard_tail) ≡ true = ground arith in
    rw meets_test (record {
      holds =
          Holds-snoc kb.keyboard_buffer ((kb.keyboard_tail + 1) % 256) kb.keyboard_head y xs next
            t.size t.head t.holds;
      size = omega (arith, length-snoc xs y, full);
      tail = next;
      head = omega (arith, length-snoc xs y, full, r.head);
    })

-- When the keyboard ring represents a list, a byte that is put into it comes last; a full ring of
-- 255 bytes loses its oldest byte.
pub put-IsRing :
    (y : ℕ) (kb : Keyboard) (xs : List ℕ)
    → IsRing kb xs
    → IsRing (put y kb) (make_room xs ++ y ∷ [])
put-IsRing y kb [] r = put-some y kb [] r (omega arith)
put-IsRing y kb (x ∷ xs) r = elim (Bool-cases (ltb (suc (length xs)) 255)) [
  | inl lt ↦ rw lt (put-some y kb (x ∷ xs) r (ground arith))
  | inr ge ↦ rw ge (put-full y kb x xs r (ground arith))
]

handle_message-read_key :
    (msg : AbiMessage) (kb : Keyboard)
    → kb.keyboard_initialized ≡ true
    → msg.msg_type ≡ driver_msg_read
    → keyboard_driver_handle_message (some msg) kb ≡ (success, (read_key kb).0, (read_key kb).1)
unfolding keyboard_driver_handle_message
handle_message-read_key msg kb on type = ground arith

read_key-empty : (kb : Keyboard) → kb.keyboard_head ≡ kb.keyboard_tail → read_key kb ≡ (none, kb)
unfolding read_key
read_key-empty kb e = ground arith

read_key-byte :
    (kb : Keyboard)
    → kb.keyboard_head ≢ kb.keyboard_tail
    → read_key kb ≡ (
      some (byte_response driver_msg_read (kb.keyboard_buffer kb.keyboard_tail)),
      record kb { keyboard_tail = (kb.keyboard_tail + 1) % 256 },
    )
unfolding read_key
read_key-byte kb ne = ground arith

-- A message that answers a read request with the byte `x`.
pub record IsByte (x : ℕ) (msg : AbiMessage) : Type 0 where
  pub kind : msg.msg_type ≡ 1
  pub size : msg.data_size ≡ 1
  pub byte : msg.payload 0 ≡ x

byte_response-IsByte : (b x : ℕ) → b ≡ x → IsByte x (byte_response driver_msg_read b)
unfolding byte_response
byte_response-IsByte b x e = record { kind = refl; size = refl; byte = e }

-- When the keyboard driver runs and its ring represents a list, a read request succeeds. It is
-- answered by a message of type 1 with the oldest byte as its only one, which leaves the ring; with
-- an empty ring nothing is answered and nothing changes.
pub handle_message-read :
    (msg : AbiMessage) (kb : Keyboard) (xs : List ℕ)
    → kb.keyboard_initialized ≡ true
    → msg.msg_type ≡ driver_msg_read
    → IsRing kb xs
    → let (status, response, kb') = keyboard_driver_handle_message (some msg) kb in
      (status ≡ success)
      × ((xs ≡ []) × (response ≡ none) × (kb' ≡ kb)
          ⊎ ((x : ℕ) × (rest : List ℕ) × (xs ≡ x ∷ rest)
              × ((answer : AbiMessage) × (response ≡ some answer) × IsByte x answer)
              × IsRing kb' rest))
handle_message-read msg kb [] on type r =
    let same : kb.keyboard_head ≡ kb.keyboard_tail = omega (arith, r.head, r.tail) in
    rw (handle_message-read_key msg kb on type, read_key-empty kb same)
      (refl, inl (refl, refl, refl))
handle_message-read msg kb (x ∷ xs) on type r =
    let apart : kb.keyboard_head ≢ kb.keyboard_tail = λ e. omega (arith, r.head, r.tail, r.size) in
    rw (handle_message-read_key msg kb on type, read_key-byte kb apart)
      (
        refl,
        inr (
          x,
          xs,
          refl,
          (
            byte_response driver_msg_read (kb.keyboard_buffer kb.keyboard_tail),
            refl,
            byte_response-IsByte (kb.keyboard_buffer kb.keyboard_tail) x r.holds.0,
          ),
          IsRing-tail kb x xs r,
        ),
      )
