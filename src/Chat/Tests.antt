-- ===== src/Chat/Tests.antt =====
-- A chat with a cipher that swaps two bytes, and the theorems at it.
use c_development_on_linux.Virtio.Sample.{queue}
use c_development_on_linux.Virtio.Host.{Cryptodev, patched_call}
use c_development_on_linux.Chat.Device.{Place, guest_cipher}
use c_development_on_linux.Base.{
  true, false, ℕ, ◌+◌, suc, ◌≤◌, ◌==◌, List, [], ◌∷◌, ◌++◌, ◌≡◌, refl, ap, ◌∙◌, arith, Option, some,
  length, replicate, All, map, if◌then◌else◌, length-replicate, All-replicate, sym,
}
use c_development_on_linux.Base.Streams.{IsPlain}
use c_development_on_linux.Chat.{
  c_string, Cipher, CryptoFile, Peer, goes_on, or_same, socket_ready, line_ready, client_round,
  server_round, rounds, server,
}
use c_development_on_linux.Chat.Talk.{Works, IsCipher, Talked, talk}
use c_development_on_linux.Chat.Sessions.{server-sends_plain}

-- 0 and 104, "h"
abbrev swapped : ℕ → ℕ
swapped b = if b == 0 then 104 else if b == 104 then 0 else b

swapped_twice : (b : ℕ) → swapped (swapped b) ≡ b
swapped_twice b = ground arith

length-map-swapped : (bs : List ℕ) → length (map swapped bs) ≡ length bs
length-map-swapped [] = refl
length-map-swapped (b ∷ bs) = ap suc (length-map-swapped bs)

map-swapped_twice : (bs : List ℕ) → map swapped (map swapped bs) ≡ bs
map-swapped_twice [] = refl
map-swapped_twice (b ∷ bs) = rw (swapped_twice b, map-swapped_twice bs) refl

abbrev swap_cipher : Cipher
swap_cipher = record {
  encrypt_block = λ x. some (map swapped x);
  decrypt_block = λ x. some (map swapped x);
}

swap_cipher-IsCipher : IsCipher swap_cipher
swap_cipher-IsCipher = record {
  inverts = λ x h. (map swapped x, refl, length-map-swapped x ∙ h, ap some (map-swapped_twice x));
}

-- "hi"
abbrev hi : List ℕ
hi = 104 ∷ 105 ∷ []

hi-IsPlain : All IsPlain hi
hi-IsPlain = (
  ((λ h. omega (arith, h)), λ h. omega (arith, h)),
  (((λ h. omega (arith, h)), λ h. omega (arith, h)), tt),
)

abbrev by_bytes : ℕ → List (Option ℕ)
by_bytes n = replicate n (some 1)

by_bytes-Works : (n : ℕ) → Works n (by_bytes n)
by_bytes-Works n = record {
  some_byte =
      All-replicate (λ w. (k : ℕ) × (w ≡ some k) × (1 ≤ k)) n (some 1) (1, refl, omega arith);
  count = omega (arith, length-replicate {A = Option ℕ} n (some 1));
}

abbrev side : Peer
side = record { buf = replicate 256 0; input = hi ++ 10 ∷ []; sent = []; shown = [] }

talk_example :
    (block : List ℕ) × (p' : Peer) × (s : Peer) × (c : Peer) × (client_round swap_cipher
        (line_ready (by_bytes 256))
        side
      ≡ goes_on p')
    × (server_round swap_cipher (socket_ready (some block) (by_bytes 255)) side ≡ goes_on s)
    × (server_round swap_cipher (line_ready (by_bytes 256)) side ≡ goes_on p')
    × (client_round swap_cipher (socket_ready (some block) (by_bytes 255)) side ≡ goes_on c)
    × Talked side side p' s hi [] block
    × Talked side side p' c hi [] block
unfolding c_string
talk_example =
    talk swap_cipher (by_bytes 256) (by_bytes 255) side side hi [] swap_cipher-IsCipher
      (by_bytes-Works 256) (by_bytes-Works 255) hi-IsPlain refl refl refl
      (λ e h. ([], ap (λ o. c_string (or_same o [])) (sym h)))

-- open, with a session
abbrev opened : CryptoFile
opened = record { is_open = true; has_session = true }

server-sends_plain_example :
    (t : Peer) × (bytes : List ℕ) × (server swap_cipher opened
        (record { found = socket_ready (some []) [] ∷ []; ends = true }
          ∷ record { found = line_ready (by_bytes 256) ∷ []; ends = false }
          ∷ [])
        side
      ≡ goes_on t)
    × (t.sent ≡ [] ++ bytes)
    × (c_string bytes ≡ some hi)
unfolding rounds server_round
server-sends_plain_example =
    server-sends_plain swap_cipher opened (socket_ready (some []) [] ∷ []) false (by_bytes 256) side
      side hi [] refl hi-IsPlain refl refl (by_bytes-Works 256)

-- a host whose device swaps the two bytes
abbrev swap_dev : Cryptodev ℕ
swap_dev = record {
  open_device = λ h. (5, h);
  close_device = λ fd h. (true, h);
  get_session = λ fd s key h. (true, s, h);
  free_session = λ fd id h. (true, h);
  crypt = λ fd c src iv dst h. (true, map swapped src, h);
  out_base = λ i. 1000 + i;
  in_base = λ i. 2000 + i;
}

abbrev place : Place
place = record { ses = 7; src = 4096; dst = 8192; iv = 64; vector = replicate 16 48 }

-- The device is in state 1 when it encrypts and in state 2 when it decrypts.
abbrev swapping : Cipher
swapping = guest_cipher queue patched_call swap_dev 5 0 place 1 2

abbrev hi_block : List ℕ
hi_block = hi ++ replicate 254 0
