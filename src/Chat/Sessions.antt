-- ===== src/Chat/Sessions.antt =====
-- The second connection of the chat's server, behind the end of the crypto session.
use c_development_on_linux.Base.{
  ℕ, Bool, true, Bool-cases, inl, inr, All, List, [], ◌∷◌, ◌++◌, ◌≡◌, refl, ◌∙◌, arith, Option,
  some, length, take, take_all,
}
use c_development_on_linux.Base.Streams.{IsPlain}
use c_development_on_linux.Chat.{
  c_string, say, encrypt, insist_write, complete, Cipher, CryptoFile, in_session, no_cipher,
  cipher_of, finishcrypto, Peer, goes_on, left, show, i_said, Ready, line_ready, server_round,
  rounds, server,
}
use c_development_on_linux.Chat.Lines.{get_line_lem}
use c_development_on_linux.Chat.Talk.{Works, insist_write_all}

-- When CIOCFSESSION works, nothing is left to encrypt with.
cipher_of-finishcrypto :
    (cipher : Cipher) (f : CryptoFile) → cipher_of cipher (finishcrypto true f) ≡ no_cipher
unfolding finishcrypto
cipher_of-finishcrypto cipher f = elim (Bool-cases (in_session f)) [
  | inl inside ↦ rw inside refl
  | inr outside ↦ rw (outside, outside) refl
]

-- When the first connection has ended, whatever was said in it, CIOCFSESSION worked behind it, and the
-- writes work, the next line of the user, without a zero byte, is sent to the next peer without
-- encryption: the bytes that are written hold its first 255 bytes as a string.
pub server-sends_plain :
    (cipher : Cipher) (f : CryptoFile) (first : List Ready) (later : Bool)
    (writes : List (Option ℕ)) (p q : Peer) (line rest : List ℕ)
    → rounds (server_round (cipher_of cipher f)) first p ≡ left q
    → All IsPlain line
    → q.input ≡ line ++ 10 ∷ rest
    → length q.buf ≡ 256
    → Works 256 writes
    → (t : Peer) × (bytes : List ℕ) × (server cipher f
          (record { found = first; ends = true }
            ∷ record { found = line_ready writes ∷ []; ends = later }
            ∷ [])
          p
        ≡ goes_on t)
      × (t.sent ≡ q.sent ++ bytes)
      × (c_string bytes ≡ some (take 255 line))
unfolding server rounds server_round say encrypt
server-sends_plain cipher f first later writes p q line rest ended a e room works =
    let t = get_line_lem line rest q.buf a (omega (arith, room)) in
    let full : length t.buf' ≡ 256 = t.same_length ∙ room in
    let written : insist_write writes t.buf' ≡ (complete, t.buf') =
      insist_write_all writes t.buf' (rw full works) in
    (
      show (i_said (take 255 line))
          (record q { buf = t.buf'; input = rest; sent = q.sent ++ t.buf' }),
      t.buf',
      rw
          (
            ended,
            cipher_of-finishcrypto cipher f,
            e,
            t.taken,
            t.string,
            take_all 256 t.buf' (omega (arith, full)),
            written,
          )
          refl,
      refl,
      t.string,
    )
