-- ===== src/App/Wallet/Exchange.antt =====
-- app/Wallet.cpp against app/RpcServer.cpp: a server understands the wallet that has its key.
use mathlib.Core.List.{append_assoc}
use forgechain.Prelude.{
  ◌==◌, ℕ, ◌+◌, ◌^◌, ◌<◌, ◌≡◌, ◌≢◌, refl, sym, ◌∙◌, ap, false, some, List, [], ◌∷◌, ◌++◌, Bytes,
  bytes_eq, bytes_eq_refl, codes, All, All-append, length, length-append, arith,
}
use forgechain.Prelude.Outcome.{Outcome, ok, fault, ◌>>=◌}
use forgechain.Crypto.{OpenSsl, double_sha_256, length-double_sha_256, derive_address}
use forgechain.Consensus.Difficulty.{Doubles}
use forgechain.Core.Wire.{to_le}
use forgechain.Chain.Queries.{next_nonce}
use forgechain.Core.Wire.Laws.{IsBytes}
use forgechain.Core.Transaction
use forgechain.Core.Transaction.{Transaction}
use forgechain.Core.Transaction.RoundTrip
use forgechain.Core.Transaction.RoundTrip.{deserialize-serialize}
use forgechain.Crypto.Hex.{to_hex, from_hex-to_hex}
use forgechain.Network.Node.Handlers.{submit_transaction}
use forgechain.App.Wallet
use forgechain.App.Wallet.{KeyPair, signed, prepare, read_from}
use forgechain.App.ParseNumber.RoundTrip.{parse_number-to_string}
use forgechain.Network.Node.State.{Node, Delivery}
use forgechain.App.RpcServer.{
  is_space, is_empty, submit_hex, get_nonce_of, to_string, run_command, Response, handle_command,
  handle_connection,
}
use forgechain.App.RpcServer.Words.{
  IsWord, read_word-append, read_word-all, read_word-space, receive_line-whole, to_hex-IsWord,
  digits-IsWord, IsWord-within_line,
}

-- A line of key, command and word.
abbrev pub line_of : Bytes → Bytes → Bytes → Bytes
line_of key command word = key ++ b' ' ∷ (command ++ b' ' ∷ word)

line_of-end :
    (key command word : Bytes)
    → key ++ b' ' ∷ (command ++ b' ' ∷ (word ++ 10 ∷ [])) ≡ line_of key command word ++ 10 ∷ []
line_of-end key command word =
    ap (λ t. key ++ b' ' ∷ t) (sym (append_assoc command (b' ' ∷ word) (10 ∷ [])))
    ∙ sym (append_assoc key (b' ' ∷ (command ++ b' ' ∷ word)) (10 ∷ []))

IsWord-line_of :
    (key command word : Bytes)
    → IsWord key
    → IsWord command
    → IsWord word
    → All (λ b. b ≢ 10) (line_of key command word)
IsWord-line_of key command word hk hc hw = All-append _ key _ (IsWord-within_line key hk) (
  (λ e. absurd (omega (arith, e))),
  All-append _ command _ (IsWord-within_line command hc)
      ((λ e. absurd (omega (arith, e))), IsWord-within_line word hw),
)

-- What is sent back of an answer.
abbrev in_line : Response → Response
in_line answer = answer >>= λ done. ok (done.0 ++ 10 ∷ [], done.1, done.2)

read_from-word : (w : Bytes) → IsWord w → read_from (w ++ 10 ∷ []) ≡ w
unfolding read_from
read_from-word [] h = refl
read_from-word (b ∷ w) (h, hs) =
    let other : (b == 10) ≡ false = ground (arith, (IsWord-within_line (b ∷ w) (h, hs)).0) in
    rw (read_from, other, read_from-word w hs) refl

submittx-IsWord : IsWord (codes "SUBMITTX")
unfolding is_space
submittx-IsWord = (refl, (refl, (refl, (refl, (refl, (refl, (refl, (refl, tt))))))))

getnonce-IsWord : IsWord (codes "GETNONCE")
unfolding is_space
getnonce-IsWord = (refl, (refl, (refl, (refl, (refl, (refl, (refl, (refl, tt))))))))

hex_is_there : (tx : Transaction) → is_empty (to_hex (Transaction.serialize tx)) ≡ false
unfolding Transaction.serialize Transaction.serialize_for_signing to_le to_hex
hex_is_there tx = refl

in_line-ok :
    (text : Bytes) (sent : Outcome (Node × List Delivery))
    → in_line (sent >>= λ done. ok (text, done.0, done.1))
      ≡ (sent >>= λ done. ok (text ++ 10 ∷ [], done.0, done.1))
in_line-ok text fault = refl
in_line-ok text (ok done) = refl

length-to_hex : (bs : Bytes) → length (to_hex bs) ≡ length bs + length bs
unfolding to_hex
length-to_hex [] = omega arith
length-to_hex (b ∷ bs) = omega (arith, length-to_hex bs)

is_empty-length : (bs : Bytes) → 0 < length bs → is_empty bs ≡ false
is_empty-length [] h = absurd (omega (arith, h))
is_empty-length (b ∷ bs) h = refl

module _ ⦃ssl : OpenSsl⦄ where
  derive_address-IsWord : (key : Bytes) → IsWord (derive_address key)
  unfolding derive_address
  derive_address-IsWord key = to_hex-IsWord (double_sha_256 key)

  length-derive_address : (key : Bytes) → length (derive_address key) ≡ 64
  unfolding derive_address
  length-derive_address key =
      omega (arith, length-to_hex (double_sha_256 key), length-double_sha_256 key)

module _ ⦃ssl : OpenSsl⦄ ⦃doubles : Doubles⦄ where
  handle_command-run :
      (key command word : Bytes) (node : Node)
      → IsWord key
      → IsWord command
      → is_empty command ≡ false
      → IsWord word
      → is_empty word ≡ false
      → handle_command key (key ++ b' ' ∷ (command ++ b' ' ∷ word)) node
        ≡ run_command command word node
  unfolding handle_command
  handle_command-run [] command word node hk hc ec hw ew =
      rw
        (
          handle_command,
          read_word-space (command ++ b' ' ∷ word),
          read_word-append command word hc ec,
          read_word-space word,
          read_word-all word hw ew,
        )
        refl
  handle_command-run (k ∷ ks) command word node hk hc ec hw ew =
      rw
        (
          handle_command,
          read_word-append (k ∷ ks) (command ++ b' ' ∷ word) hk refl,
          read_word-space (command ++ b' ' ∷ word),
          read_word-append command word hc ec,
          read_word-space word,
          read_word-all word hw ew,
          bytes_eq_refl (k ∷ ks),
          ec,
        )
        refl

  handle_connection-run :
      (key command word : Bytes) (node : Node)
      → IsWord key
      → IsWord command
      → is_empty command ≡ false
      → IsWord word
      → is_empty word ≡ false
      → length (line_of key command word) < 4096
      → handle_connection key (key ++ b' ' ∷ (command ++ b' ' ∷ (word ++ 10 ∷ []))) node
        ≡ in_line (run_command command word node)
  unfolding handle_connection
  handle_connection-run key command word node hk hc ec hw ew small =
      let whole =
        receive_line-whole (line_of key command word) [] (IsWord-line_of key command word hk hc hw)
          small in
      rw
        (
          line_of-end key command word,
          handle_connection,
          whole,
          handle_command-run key command word node hk hc ec hw ew,
        )
        refl

  submit_hex-serialize :
      (tx : Transaction) (node : Node)
      → RoundTrip.Fits tx
      → IsBytes (Transaction.serialize tx)
      → submit_hex (to_hex (Transaction.serialize tx)) node
        ≡ (submit_transaction tx node >>= λ done. ok (codes "OK", done.0, done.1))
  unfolding submit_hex
  submit_hex-serialize tx node fits bytes =
      rw
        (
          submit_hex,
          hex_is_there tx,
          from_hex-to_hex (Transaction.serialize tx) bytes,
          deserialize-serialize tx fits,
        )
        refl

  -- A transaction whose fields fit and hold bytes, in a line of less than 4096 bytes, and a key without
  -- whitespace. The server whose key the wallet has, or that both have none for, submits this very
  -- transaction to its node, and answers OK, whether or not the node takes it into its mempool, unless
  -- submitting it throws, as where its public key cannot be decoded.
  pub handle_connection-submit :
      (key : Bytes) (tx : Transaction) (node : Node)
      → IsWord key
      → RoundTrip.Fits tx
      → IsBytes (Transaction.serialize tx)
      → length (line_of key (codes "SUBMITTX") (to_hex (Transaction.serialize tx))) < 4096
      → handle_connection key (Wallet.submit key tx) node
        ≡ (submit_transaction tx node >>= λ done. ok (codes "OK" ++ 10 ∷ [], done.0, done.1))
  unfolding run_command bytes_eq
  handle_connection-submit key tx node hk fits bytes small =
      handle_connection-run key (codes "SUBMITTX") (to_hex (Transaction.serialize tx)) node hk
        submittx-IsWord refl (to_hex-IsWord (Transaction.serialize tx)) (hex_is_there tx) small
      ∙ ap in_line (submit_hex-serialize tx node fits bytes)
      ∙ in_line-ok (codes "OK") (submit_transaction tx node)

  nonce_is_read :
      (key address : Bytes) (node : Node)
      → IsWord key
      → IsWord address
      → is_empty address ≡ false
      → length (line_of key (codes "GETNONCE") address) < 4096
      → handle_connection key (Wallet.next_nonce key address) node
        ≡ ok (to_string (next_nonce node.chain address) ++ 10 ∷ [], node, [])
  unfolding run_command get_nonce_of bytes_eq
  nonce_is_read key address node hk ha ea small =
      handle_connection-run key (codes "GETNONCE") address node hk getnonce-IsWord refl ha ea small
      ∙ rw (get_nonce_of, ea) refl

  -- A server whose key the wallet has, or that both have none for, and a ledger whose next nonce for
  -- the wallet fits an `int`; the key has less than 4000 bytes and no whitespace. The server answers the wallet's GETNONCE
  -- and leaves the node alone, and from the answer the wallet makes the transaction with the nonce
  -- that the ledger expects of its address, signed with its private key.
  pub prepare-handle_connection :
      (sign : Bytes → Bytes → Bytes) (keys : KeyPair) (recipient : Bytes) (amount fee : ℕ)
      (key : Bytes) (node : Node)
      → IsWord key
      → length key < 4000
      → next_nonce node.chain (derive_address keys.public_key) < 2 ^ 31
      → (response : Bytes) × (handle_connection key
            (Wallet.next_nonce key (derive_address keys.public_key))
            node
          ≡ ok (response, node, []))
        × (prepare sign keys recipient amount fee (read_from response)
            ≡ some (
                signed sign keys recipient amount fee
                  (next_nonce node.chain (derive_address keys.public_key))))
  unfolding prepare
  prepare-handle_connection sign keys recipient amount fee key node hk short low =
      let address = derive_address keys.public_key in
      let nonce = next_nonce node.chain address in
      let there : 0 < length address = omega (arith, length-derive_address keys.public_key) in
      let text : read_from (to_string nonce ++ 10 ∷ []) ≡ to_string nonce =
        read_from-word (to_string nonce) (digits-IsWord 20 nonce) in
      let small : length (line_of key (codes "GETNONCE") address) < 4096 = omega (
        arith,
        short,
        length-append key (b' ' ∷ (codes "GETNONCE" ++ b' ' ∷ address)),
        length-derive_address keys.public_key,
      ) in
      (
        to_string nonce ++ 10 ∷ [],
        nonce_is_read key address node hk (derive_address-IsWord keys.public_key)
            (is_empty-length address there) small,
        rw (text, prepare, parse_number-to_string nonce low) refl,
      )
