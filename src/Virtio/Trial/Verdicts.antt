-- ===== src/Virtio/Trial/Verdicts.antt =====
-- What the function test_crypto of test_crypto.c finds out over an open file.
use c_development_on_linux.Base.{
  ℕ, Bool, true, List, some, ◌≡◌, ◌↔◌, refl, sym, ap, ◌∙◌, arith, length, replicate, take_all,
  Bool-cases, inl, inr,
}
use c_development_on_linux.Base.Texts.{same_text, same_text_refl, same_text-same}
use c_development_on_linux.Virtio.Wire.{SessionOp, Element}
use c_development_on_linux.Virtio.Host.{Cryptodev, Call, ioctl_call}
use c_development_on_linux.Virtio.Guest.{
  Ioctl, asks_session, ends_session, asks_crypt, asks_other, Outcome, finished,
}
use c_development_on_linux.Virtio.Calls.{IsQueue, IsKnown, direct, crypto_chrdev_ioctl-direct}
use c_development_on_linux.Virtio.Trial.Arrays.{
  HasSizes, over_full, memory_input, memory_encrypted, memory_iv, memory_key, write_encrypted,
  write_decrypted,
}
use c_development_on_linux.Virtio.Trial.{
  Trial, Verdict, data_size, memory_of, encrypted_at, decrypted_at, write_back, first_session,
  cryp_of, fill_urandom_buff, call, verify, encrypts_and_decrypts, test_crypto, verdict,
}

module _ {H : Type 0} (passes : Element → Bool) (call_of : ℕ → Call) (dev : Cryptodev H)
    (host_fd base cipher' : ℕ) (queue : IsQueue passes) (numbers : call_of 2 ≡ ioctl_call) where
  -- the trial after a call that the host's device handles
  abbrev after : Ioctl → Trial H → Trial H
  after io t =
      let d = direct dev host_fd (memory_of base t.data') true io t.host in
      write_back base d.to_user (record t { host = d.host })

  call-direct :
      (io : Ioctl) (t : Trial H) (k : Trial H → Outcome (Verdict H))
      → IsKnown io
      → call passes call_of dev host_fd base cipher' io t k ≡ k (after io t)
  unfolding call
  call-direct (asks_session s) t k known =
      rw
        (crypto_chrdev_ioctl-direct passes call_of dev queue numbers host_fd
          (memory_of base t.data') true 0 (asks_session s) t.host known)
        refl
  call-direct (ends_session id) t k known =
      rw
        (crypto_chrdev_ioctl-direct passes call_of dev queue numbers host_fd
          (memory_of base t.data') true 0 (ends_session id) t.host known)
        refl
  call-direct (asks_crypt c) t k known =
      rw
        (crypto_chrdev_ioctl-direct passes call_of dev queue numbers host_fd
          (memory_of base t.data') true 0 (asks_crypt c) t.host known)
        refl
  call-direct (asks_other n) t k known = absurd known

  -- what the host's device makes of data, with the buffers where the host has them
  abbrev pub by_host : ℕ → ℕ → List ℕ → List ℕ → H → Bool × List ℕ × H
  by_host op' id iv' bs h =
      dev.crypt host_fd
        (record {
          ses = id;
          op = op';
          flags = 0;
          len = data_size;
          src = dev.out_base 5;
          dst = dev.in_base 1;
          mac = 0;
          iv = dev.out_base 6;
        })
        bs iv' (replicate data_size 0) h

  -- the trial after the data are encrypted, and after they are decrypted
  abbrev encrypted_by : Bool × List ℕ × H → Trial H → Trial H
  encrypted_by out t = record t { host = out.2; data' = record (t.data') { encrypted = out.1 } }

  abbrev decrypted_by : Bool × List ℕ × H → Trial H → Trial H
  decrypted_by out t = record t { host = out.2; data' = record (t.data') { decrypted = out.1 } }

  after_encryption :
      (t : Trial H)
      → HasSizes t.data'
      → length (by_host 0 t.sess.ses t.data'.iv t.data'.input t.host).1 ≡ 16384
      → after (asks_crypt (cryp_of base 0 base (encrypted_at base) t)) t
        ≡ encrypted_by (by_host 0 t.sess.ses t.data'.iv t.data'.input t.host) t
  after_encryption t v full =
      let out = by_host 0 t.sess.ses t.data'.iv t.data'.input t.host in
      rw (memory_input base t.data' v, memory_iv base t.data' v)
        (write_encrypted base out.1 (record t { host = out.2 }) full v)

  after_decryption :
      (t : Trial H)
      → HasSizes t.data'
      → length (by_host 1 t.sess.ses t.data'.iv t.data'.encrypted t.host).1 ≡ 16384
      → after (asks_crypt (cryp_of base 1 (encrypted_at base) (decrypted_at base) t)) t
        ≡ decrypted_by (by_host 1 t.sess.ses t.data'.iv t.data'.encrypted t.host) t
  after_decryption t v full =
      let out = by_host 1 t.sess.ses t.data'.iv t.data'.encrypted t.host in
      rw (memory_encrypted base t.data' v, memory_iv base t.data' v)
        (write_decrypted base out.1 (record t { host = out.2 }) full v)

  -- What the host's device makes of the request for a session, of the data with that session, and
  -- of the result
  abbrev pub session_by_host : Trial H → Bool × SessionOp × H
  session_by_host t =
      dev.get_session host_fd (record (first_session base cipher') { key = dev.out_base 3 })
        t.data'.key t.host

  abbrev pub encryption : List ℕ → Trial H → Bool × List ℕ × H
  encryption bs t = let s = session_by_host t in by_host 0 s.1.ses t.data'.iv bs s.2

  abbrev pub decryption : List ℕ → Trial H → Bool × List ℕ × H
  decryption bs t =
      let out = encryption bs t in by_host 1 (session_by_host t).1.ses t.data'.iv out.1 out.2

  -- the trial with the data of /dev/urandom and its first session
  abbrev filled : List ℕ → Trial H → Trial H
  filled bs t = record t {
    data' = record (t.data') { input = bs };
    sess = first_session base cipher';
  }

  filled_lem :
      (bs : List ℕ) (t : Trial H)
      → HasSizes t.data'
      → length bs ≡ 16384
      → record (fill_urandom_buff bs t) { sess = first_session base cipher' } ≡ filled bs t
  unfolding fill_urandom_buff
  filled_lem bs t v full =
      rw (take_all 16384 bs (omega (arith, full)), over_full bs t.data'.input (full ∙ sym v.input))
        refl

  filled-HasSizes :
      (bs : List ℕ) (t : Trial H)
      → HasSizes t.data'
      → length bs ≡ 16384
      → HasSizes (filled bs t).data'
  filled-HasSizes bs t v full = record {
    input = full;
    encrypted = v.encrypted;
    decrypted = v.decrypted;
    iv = v.iv;
    key = v.key;
  }

  after_session :
      (bs : List ℕ) (t : Trial H)
      → HasSizes t.data'
      → length bs ≡ 16384
      → after (asks_session (first_session base cipher')) (filled bs t)
        ≡ (let s = session_by_host t in record (filled bs t) { sess = s.1; host = s.2 })
  unfolding write_back
  after_session bs t v full =
      rw (memory_key base (filled bs t).data' (filled-HasSizes bs t v full)) refl

  -- the trial when the data are compared
  abbrev compared : List ℕ → Trial H → Trial H
  compared bs t =
      let s = session_by_host t in
      decrypted_by (decryption bs t)
        (encrypted_by (encryption bs t) (record (filled bs t) { sess = s.1; host = s.2 }))

  verify_lem :
      (t : Trial H)
      → length t.data'.input ≡ 16384
      → length t.data'.decrypted ≡ 16384
      → (v : Verdict H) × (verify passes call_of dev host_fd base cipher' t ≡ finished v)
        × ((v.status ≡ 0) ↔ (t.data'.decrypted ≡ t.data'.input))
  unfolding verify
  verify_lem t full full' =
      let d = t.data' in
      rw
        (
          take_all 16384 d.input (omega (arith, full)),
          take_all 16384 d.decrypted (omega (arith, full')),
        )
        (elim (Bool-cases (same_text d.input d.decrypted)) [
          | inl same ↦ rw same (
            record { status = 0; left = after (ends_session t.sess.ses) t },
            call-direct (ends_session t.sess.ses) t (verdict 0) tt,
            ((λ _. sym (same_text-same d.input d.decrypted same)), λ _. refl),
          )
          | inr other ↦ rw other (
            record { status = 1; left = t },
            refl,
            (
              (λ e. absurd (omega (arith, e))),
              λ e.
                  let same : same_text d.input d.decrypted ≡ true =
                    ap (same_text d.input) e ∙ same_text_refl d.input in
                  absurd (ground (arith, sym other ∙ same)),
            ),
          )
        ])

  -- What the function test_crypto says of the device, once its file is open, which `main` does not
  -- reach over this driver. With a queue that hands on filled buffers, the same number for ioctl on
  -- both sides, copies to the user that work, full arrays, all 16384 bytes from /dev/urandom, and a
  -- host whose device gives back as many bytes as it gets here: the function comes to an end, and it
  -- returns 0 exactly if what that device makes of the encrypted data, with the session that it gave,
  -- is the data of /dev/urandom, whether that device reported success or not.
  pub test_crypto_lem :
      (bs : List ℕ) (t : Trial H)
      → HasSizes t.data'
      → length bs ≡ 16384
      → length (encryption bs t).1 ≡ 16384
      → length (decryption bs t).1 ≡ 16384
      → (v : Verdict H) × (test_crypto passes call_of dev host_fd base cipher' (some bs) t
          ≡ finished v)
        × ((v.status ≡ 0) ↔ ((decryption bs t).1 ≡ bs))
  unfolding test_crypto encrypts_and_decrypts
  test_crypto_lem bs t v full full_e full_d =
      let run = encrypts_and_decrypts passes call_of dev host_fd base cipher' in
      let check = verify passes call_of dev host_fd base cipher' in
      let sizes = filled-HasSizes bs t v full in
      let s = session_by_host t in
      let ready = record (filled bs t) { sess = s.1; host = s.2 } in
      let encrypted' = encrypted_by (encryption bs t) ready in
      let sizes' : HasSizes encrypted'.data' = record {
        input = full;
        encrypted = full_e;
        decrypted = v.decrypted;
        iv = v.iv;
        key = v.key;
      } in
      let (out, ends, says) = verify_lem (compared bs t) full full_d in
      (
        out,
        ap (λ u. call passes call_of dev host_fd base cipher' (asks_session u.sess) u run)
              (filled_lem bs t v full)
            ∙ call-direct (asks_session (first_session base cipher')) (filled bs t) run
                (omega arith)
            ∙ ap run (after_session bs t v full)
            ∙ call-direct (asks_crypt (cryp_of base 0 base (encrypted_at base) ready)) ready _
                (omega arith)
            ∙ ap
                (λ u.
                  call passes call_of dev host_fd base cipher'
                    (asks_crypt (cryp_of base 1 (encrypted_at base) (decrypted_at base) u)) u check)
                (after_encryption ready sizes full_e)
            ∙ call-direct
                (asks_crypt (cryp_of base 1 (encrypted_at base) (decrypted_at base) encrypted'))
                encrypted' check (omega arith)
            ∙ ap check (after_decryption encrypted' sizes' full_d)
            ∙ ends,
        says,
      )
