-- ===== src/Echo/Tests.antt =====
-- The greeting in two parts, and the theorem at it.
use c_development_on_linux.Base.{
  ℕ, true, List, [], ◌∷◌, Option, some, ◌≡◌, refl, arith, replicate, All-replicate,
  length-replicate, ◌≤◌,
}
use c_development_on_linux.Chat.{insist_write}
use c_development_on_linux.Chat.Talk.{Works}
use c_development_on_linux.Echo.{toupper_buf, closed, serve, hello_there, Calls, client}
use c_development_on_linux.Echo.Sayings.{Part, reads_of, AllWork, client-serve}

abbrev by_bytes : ℕ → List (Option ℕ)
by_bytes n = replicate n (some 1)

by_bytes-Works : (n : ℕ) → Works n (by_bytes n)
by_bytes-Works n = record {
  some_byte =
      All-replicate (λ w. (k : ℕ) × (w ≡ some k) × (1 ≤ k)) n (some 1) (1, refl, omega arith);
  count = omega (arith, length-replicate {A = Option ℕ} n (some 1));
}

-- "Hello" and " there!", and the answer
abbrev to_server : List Part
to_server =
    record {
      first = 72;
      others = 101 ∷ 108 ∷ 108 ∷ 111 ∷ [];
      writes = by_bytes 5;
      works = by_bytes-Works 5;
    }
    ∷ record {
      first = 32;
      others = 116 ∷ 104 ∷ 101 ∷ 114 ∷ 101 ∷ 33 ∷ [];
      writes = by_bytes 7;
      works = by_bytes-Works 7;
    }
    ∷ []

abbrev to_client : List Part
to_client =
    record {
      first = 72;
      others = 69 ∷ 76 ∷ 76 ∷ 79 ∷ 32 ∷ 84 ∷ 72 ∷ 69 ∷ 82 ∷ 69 ∷ 33 ∷ [];
      writes = by_bytes 12;
      works = by_bytes-Works 12;
    }
    ∷ []

abbrev calls : Calls
calls = record {
  makes_socket = true;
  finds_host = true;
  connects = true;
  writes = by_bytes 12;
  shuts_down = true;
}

calls-AllWork : AllWork calls
calls-AllWork = record {
  makes_socket = refl;
  finds_host = refl;
  connects = refl;
  writes = by_bytes-Works 12;
  shuts_down = refl;
}

client-serve_example :
    (client ([] ∷ [] ∷ [] ∷ []) calls (reads_of to_client)
      ≡ (hello_there, record { status = some 0; fd = 0; bytes = toupper_buf hello_there }))
    × (serve (reads_of to_server) [] ≡ (closed, toupper_buf hello_there))
unfolding client serve insist_write toupper_buf
client-serve_example = client-serve [] [] [] calls to_server to_client calls-AllWork refl refl
