-- ===== src/App/RpcServer/Words.antt =====
-- app/RpcServer.cpp: the words of a line that another program wrote.
use mathlib.Core.List.{append-nil, append_assoc}
use forgechain.Prelude.{
  ℕ, zero, suc, ◌+◌, ◌-◌, ◌/◌, ◌%◌, ◌<◌, ◌≡◌, ◌≢◌, refl, ◌∙◌, ap, true, false, some, [], ◌∷◌, ◌++◌,
  Bytes, All, All-append, length, length-append, ltb, leb, ◌==◌, if◌then◌else◌, arith,
}
use forgechain.Prelude.Outcome.{on_branches}
use forgechain.Crypto.Hex.{to_hex}
use forgechain.App.RpcServer.{
  digits, is_space, skip_spaces, take_word, read_word, is_empty, receive_line,
}

-- No byte that ends a word.
abbrev pub IsWord : Bytes → Type 0
IsWord = All (λ b. is_space b ≡ false)

take_word-append : (w rest : Bytes) → IsWord w → take_word (w ++ b' ' ∷ rest) ≡ (w, b' ' ∷ rest)
unfolding take_word is_space
take_word-append [] rest h = refl
take_word-append (b ∷ w) rest (h, hs) = rw (take_word, h, take_word-append w rest hs) refl

take_word-all : (w : Bytes) → IsWord w → take_word w ≡ (w, [])
unfolding take_word
take_word-all [] h = refl
take_word-all (b ∷ w) (h, hs) = rw (take_word, h, take_word-all w hs) refl

skip_spaces-word :
    (w rest : Bytes) → IsWord w → is_empty w ≡ false → skip_spaces (w ++ rest) ≡ w ++ rest
unfolding skip_spaces
skip_spaces-word [] rest h e = cc
skip_spaces-word (b ∷ w) rest (h, hs) e = rw (skip_spaces, h) refl

-- A word in front of a space.
pub read_word-append :
    (w rest : Bytes)
    → IsWord w
    → is_empty w ≡ false
    → read_word (w ++ b' ' ∷ rest) ≡ (w, b' ' ∷ rest)
unfolding read_word
read_word-append w rest h e =
    ap take_word (skip_spaces-word w (b' ' ∷ rest) h e) ∙ take_word-append w rest h

pub read_word-all : (w : Bytes) → IsWord w → is_empty w ≡ false → read_word w ≡ (w, [])
unfolding read_word
read_word-all w h e =
    ap take_word (rw (append-nil w) at (skip_spaces-word w [] h e)) ∙ take_word-all w h

pub read_word-space : (bs : Bytes) → read_word (b' ' ∷ bs) ≡ read_word bs
unfolding read_word skip_spaces is_space
read_word-space bs = refl

pub read_word-none : read_word [] ≡ ([], [])
unfolding read_word skip_spaces take_word
read_word-none = refl

receive_line-append :
    (line bs more : Bytes)
    → All (λ b. b ≢ 10) bs
    → length line + length bs < 4096
    → receive_line line (bs ++ 10 ∷ more) ≡ some (line ++ bs)
unfolding receive_line
receive_line-append line [] more h small =
    let short : leb 4096 (length line) ≡ false = ground arith in
    rw (receive_line, short, append-nil line) refl
receive_line-append line (b ∷ bs) more (h, hs) small =
    let short : leb 4096 (length line) ≡ false = ground arith in
    let other : (b == 10) ≡ false = ground arith in
    let small' : length (line ++ b ∷ []) + length bs < 4096 =
      omega (arith, small, length-append line (b ∷ [])) in
    rw (receive_line, short, other)
      (receive_line-append (line ++ b ∷ []) bs more hs small'
        ∙ ap some (append_assoc line (b ∷ []) bs))

-- A line of less than 4096 bytes is received as it was sent.
pub receive_line-whole :
    (bs more : Bytes)
    → All (λ b. b ≢ 10) bs
    → length bs < 4096
    → receive_line [] (bs ++ 10 ∷ more) ≡ some bs
receive_line-whole bs more h small = receive_line-append [] bs more h (omega (arith, small))

hex_digit-IsWord :
    (v : ℕ) → v < 16 → is_space (if leb v 9 then b'0' + v else b'a' + (v - 10)) ≡ false
unfolding is_space
hex_digit-IsWord v h = ground arith

pub to_hex-IsWord : (bs : Bytes) → IsWord (to_hex bs)
unfolding to_hex
to_hex-IsWord [] = tt
to_hex-IsWord (b ∷ bs) = (
  hex_digit-IsWord (b / 16 % 16) (omega arith),
  (hex_digit-IsWord (b % 16) (omega arith), to_hex-IsWord bs),
)

space_of_line : is_space 10 ≡ true
unfolding is_space
space_of_line = refl

-- No byte of a word ends a line.
pub IsWord-within_line : (w : Bytes) → IsWord w → All (λ b. b ≢ 10) w
IsWord-within_line [] h = tt
IsWord-within_line (b ∷ w) (h, hs) =
    ((λ e. cc (ap is_space e, h, space_of_line)), IsWord-within_line w hs)

pub digits-IsWord : (k n : ℕ) → IsWord (digits k n)
unfolding digits is_space
digits-IsWord zero n = tt
digits-IsWord (suc k) n =
    on_branches IsWord (ltb n 10) _ _ (λ small. (ground arith, tt))
      λ _. All-append _ (digits k (n / 10)) _ (digits-IsWord k (n / 10)) (ground arith, tt)
