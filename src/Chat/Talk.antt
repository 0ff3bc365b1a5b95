-- ===== src/Chat/Talk.antt =====
-- A line that one side of the chat sends and the other prints.
use c_development_on_linux.Base.{
  ℕ, suc, ◌-◌, ◌≤◌, List, [], ◌∷◌, ◌++◌, ◌≡◌, refl, ap, ◌∙◌, arith, Option, some, length, take,
  drop, replicate, All, append-nil, length-append, length-take, length-drop, length-replicate,
  take-append-drop, take_all,
}
use c_development_on_linux.Base.Streams.{IsPlain, no_zeros}
use c_development_on_linux.Chat.{
  c_string, overwrite, data_size, insist_write, complete, Cipher, encrypt, decrypt, Peer, Round,
  goes_on, left, exits, show, i_said, remote_says, say, socket_ready, line_ready, client_round,
  server_round,
}
use c_development_on_linux.Chat.Lines.{get_line_lem, c_string_cut, All-take}

-- `write` works for every byte.
pub record Works (n : ℕ) (writes : List (Option ℕ)) : Type 0 where
  pub some_byte : All (λ w. (k : ℕ) × (w ≡ some k) × (1 ≤ k)) writes
  pub count : n ≤ length writes

-- All the bytes are written, in however many parts.
pub insist_write_all :
    (writes : List (Option ℕ)) (bs : List ℕ)
    → Works (length bs) writes
    → insist_write writes bs ≡ (complete, bs)
unfolding insist_write
insist_write_all writes [] w = refl
insist_write_all [] (b ∷ bs) w = absurd (omega (arith, w.count))
insist_write_all (x ∷ writes) (b ∷ bs) w =
    let ((k, e, positive), others) = w.some_byte in
    let rest : insist_write writes (drop k (b ∷ bs)) ≡ (complete, drop k (b ∷ bs)) =
      insist_write_all writes (drop k (b ∷ bs)) (record {
        some_byte = others;
        count = omega (arith, w.count, positive, length-drop k (b ∷ bs));
      }) in
    rw (e, rest, take-append-drop k (b ∷ bs)) refl

-- a text in a block of zeros
abbrev pub block_of : List ℕ → List ℕ
block_of text = text ++ replicate (data_size - length text) 0

-- The operations of the device on whole blocks succeed and are inverse to each other.
pub record IsCipher (cipher : Cipher) : Type 0 where
  pub inverts :
      (x : List ℕ)
      → length x ≡ 256
      → (e : List ℕ) × (cipher.encrypt_block x ≡ some e)
        × (length e ≡ 256)
        × (cipher.decrypt_block e ≡ some x)

abbrev said : List ℕ → List ℕ → List ℕ → List ℕ → Peer → Peer
said buf' sent' text rest p =
    show (i_said text) (record p { buf = buf'; input = rest; sent = p.sent ++ sent' })

say_lem :
    (f : Peer → Round) (cipher : Cipher) (writes : List (Option ℕ)) (p : Peer)
    (line rest block : List ℕ)
    → All IsPlain line
    → p.input ≡ line ++ 10 ∷ rest
    → 256 ≤ length p.buf
    → cipher.encrypt_block (block_of (take 255 line)) ≡ some block
    → length block ≡ 256
    → Works 256 writes
    → say f cipher writes p ≡ goes_on (said block block (take 255 line) rest p)
unfolding say encrypt
say_lem f cipher writes p line rest block a e room enc full works =
    let t = get_line_lem line rest p.buf a room in
    let written : insist_write writes block ≡ (complete, block) =
      insist_write_all writes block (rw full works) in
    rw (e, t.taken, t.string, enc, take_all 256 block (omega (arith, full)), written) refl

block_full : (line : List ℕ) → length (block_of (take 255 line)) ≡ 256
block_full line = omega (
  arith,
  length-append (take 255 line) (replicate (256 - length (take 255 line)) 0),
  length-replicate {A = ℕ} (256 - length (take 255 line)) 0,
  length-take 255 line,
)

block_string :
    (line : List ℕ) → All IsPlain line → c_string (block_of (take 255 line)) ≡ some (take 255 line)
block_string line a =
    let text = take 255 line in
    let padded : 256 - length text ≡ suc (255 - length text) =
      omega (arith, length-take 255 line) in
    rw padded
      (c_string_cut text (replicate (255 - length text) 0) (no_zeros text (All-take 255 line a)))

no_bytes : (bs : List ℕ) → length bs ≡ 0 → bs ≡ []
no_bytes [] h = refl
no_bytes (b ∷ bs) h = absurd (omega (arith, h))

heard_block :
    (b : ℕ) (bs buf : List ℕ)
    → length (b ∷ bs) ≡ 256
    → length buf ≡ 256
    → overwrite (b ∷ bs) buf ≡ b ∷ bs
unfolding overwrite
heard_block b bs buf h k =
    let none_left : drop (length (b ∷ bs)) buf ≡ [] =
      no_bytes (drop (length (b ∷ bs)) buf)
        (omega (arith, h, k, length-drop (length (b ∷ bs)) buf)) in
    ap (λ l. (b ∷ bs) ++ l) none_left ∙ append-nil (b ∷ bs)

-- What a block leaves at the side that reads it
abbrev heard : List ℕ → List ℕ → Peer → Peer
heard buf' text q = show (remote_says text) (record q { buf = buf' })

-- The text of a line is written to standard output.
prints_line :
    (prints : List (Option ℕ)) (line : List ℕ)
    → Works 255 prints
    → insist_write prints (take 255 line) ≡ (complete, take 255 line)
prints_line prints line w =
    insist_write_all prints (take 255 line)
      (record { some_byte = w.some_byte; count = omega (arith, w.count, length-take 255 line) })

client_hears :
    (cipher : Cipher) (prints : List (Option ℕ)) (q : Peer) (block line z : List ℕ)
    → All IsPlain line
    → length block ≡ 256
    → length q.buf ≡ 256
    → cipher.decrypt_block block ≡ some (block_of (take 255 line))
    → c_string block ≡ some z
    → Works 255 prints
    → client_round cipher (socket_ready (some block) prints) q
      ≡ goes_on (heard (block_of (take 255 line)) (take 255 line) q)
unfolding client_round decrypt
client_hears cipher prints q [] line z a h k dec s w = absurd (omega (arith, h))
client_hears cipher prints q (b ∷ bs) line z a h k dec s w =
    rw (heard_block b bs q.buf h k, s, dec, block_string line a, prints_line prints line w) refl

server_hears :
    (cipher : Cipher) (prints : List (Option ℕ)) (q : Peer) (block line z : List ℕ)
    → All IsPlain line
    → length block ≡ 256
    → length q.buf ≡ 256
    → cipher.decrypt_block block ≡ some (block_of (take 255 line))
    → c_string block ≡ some z
    → Works 255 prints
    → server_round cipher (socket_ready (some block) prints) q
      ≡ goes_on (heard (replicate data_size 0) (take 255 line) q)
unfolding server_round decrypt
server_hears cipher prints q [] line z a h k dec s w = absurd (omega (arith, h))
server_hears cipher prints q (b ∷ bs) line z a h k dec s w =
    rw (heard_block b bs q.buf h k, s, dec, block_string line a, prints_line prints line w) refl

-- What has changed at two sides, of which the first has sent a line to the second
pub record Talked (p q p' q' : Peer) (line rest block : List ℕ) : Type 0 where
  pub sent : p'.sent ≡ p.sent ++ block
  pub left : p'.input ≡ rest
  pub said : p'.shown ≡ p.shown ++ i_said (take 255 line) ∷ []
  pub heard : q'.shown ≡ q.shown ++ remote_says (take 255 line) ∷ []

-- With a cipher whose operations are inverse to each other, writes that work, and buffers of 256 bytes:
-- a line without a zero byte that is typed at one side is printed at the other, up to its first 255
-- bytes, in both directions, if one read brings the whole block and the block has a zero byte.
pub talk :
    (cipher : Cipher) (writes prints : List (Option ℕ)) (p q : Peer) (line rest : List ℕ)
    → IsCipher cipher
    → Works 256 writes
    → Works 255 prints
    → All IsPlain line
    → p.input ≡ line ++ 10 ∷ rest
    → length p.buf ≡ 256
    → length q.buf ≡ 256
    → ((e : List ℕ)
        → cipher.encrypt_block (block_of (take 255 line)) ≡ some e
        → (z : List ℕ) × (c_string e ≡ some z))
    → (block : List ℕ) × (p' : Peer) × (s : Peer) × (c : Peer) × (client_round cipher
          (line_ready writes)
          p
        ≡ goes_on p')
      × (server_round cipher (socket_ready (some block) prints) q ≡ goes_on s)
      × (server_round cipher (line_ready writes) p ≡ goes_on p')
      × (client_round cipher (socket_ready (some block) prints) q ≡ goes_on c)
      × Talked p q p' s line rest block
      × Talked p q p' c line rest block
unfolding client_round server_round
talk cipher writes prints p q line rest i works shows a e room room' z =
    let text = take 255 line in
    let (block, enc, full, dec) = i.inverts (block_of text) (block_full line) in
    let (str, has_zero) = z block enc in
    (
      block,
      said block block text rest p,
      heard (replicate data_size 0) text q,
      heard (block_of text) text q,
      say_lem exits cipher writes p line rest block a e (omega (arith, room)) enc full works,
      server_hears cipher prints q block line str a full room' dec has_zero shows,
      say_lem left cipher writes p line rest block a e (omega (arith, room)) enc full works,
      client_hears cipher prints q block line str a full room' dec has_zero shows,
      record { sent = refl; left = refl; said = refl; heard = refl },
      record { sent = refl; left = refl; said = refl; heard = refl },
    )
