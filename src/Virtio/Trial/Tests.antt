-- ===== src/Virtio/Trial/Tests.antt =====
-- A run of test_crypto.c, and the theorem at it.
use c_development_on_linux.Base.{
  ℕ, ◌+◌, true, List, some, ◌≡◌, ◌↔◌, refl, length, replicate, length-replicate,
}
use c_development_on_linux.Virtio.Host.{Cryptodev, patched_call}
use c_development_on_linux.Virtio.Guest.{finished}
use c_development_on_linux.Virtio.Sample.{queue, queue-IsQueue}
use c_development_on_linux.Virtio.Trial.{Trial, Verdict, first_session, test_crypto}
use c_development_on_linux.Virtio.Trial.Arrays.{HasSizes}
use c_development_on_linux.Virtio.Trial.Verdicts.{decryption, test_crypto_lem}

-- a host whose device copies the data
abbrev copier : Cryptodev ℕ
copier = record {
  open_device = λ h. (5, h);
  close_device = λ fd h. (true, h);
  get_session = λ fd s key h. (true, s, h + 1);
  free_session = λ fd id h. (true, h);
  crypt = λ fd c src iv dst h. (true, src, h + 1);
  out_base = λ i. 1000 + i;
  in_base = λ i. 2000 + i;
}

bytes_of_seven : (n : ℕ) → (bs : List ℕ) × (length bs ≡ n)
bytes_of_seven n = (replicate n 7, length-replicate n 7)

abbrev urandom : List ℕ
urandom = (bytes_of_seven 16384).0

abbrev begin : Trial ℕ
begin = record {
  data' = record {
    input = urandom;
    encrypted = urandom;
    decrypted = urandom;
    iv = (bytes_of_seven 16).0;
    key = (bytes_of_seven 24).0;
  };
  sess = first_session 64 0;
  host = 0;
}

begin-HasSizes : HasSizes begin.data'
begin-HasSizes = record {
  input = (bytes_of_seven 16384).1;
  encrypted = (bytes_of_seven 16384).1;
  decrypted = (bytes_of_seven 16384).1;
  iv = (bytes_of_seven 16).1;
  key = (bytes_of_seven 24).1;
}

test_crypto_example :
    (v : Verdict ℕ) × (test_crypto queue patched_call copier 5 64 11 (some urandom) begin
      ≡ finished v)
    × ((v.status ≡ 0) ↔ (
        (decryption queue patched_call copier 5 64 11 queue-IsQueue refl urandom begin).1
        ≡ urandom))
test_crypto_example =
    test_crypto_lem queue patched_call copier 5 64 11 queue-IsQueue refl urandom begin
      begin-HasSizes (bytes_of_seven 16384).1 (bytes_of_seven 16384).1 (bytes_of_seven 16384).1
