-- ===== src/Matter/Ccm/Open.antt =====
-- What `seal` and `open` of plugins/matter/src/ccm.rs promise each other.
use stulp.Prelude.{
  ℕ, zero, suc, ◌+◌, ◌-◌, ◌≤◌, ◌≡◌, ◌⊎◌, refl, sym, ap, ◌∙◌, Bool, true, not, ◌||◌, List, [], ◌∷◌,
  ◌++◌, arith, length, take, drop, leb, inl, inr, length-append, length-take, length-drop,
  take-append, drop-append, take-all, append-nil, take-append-drop, Bool-cases, ltb, ◌==◌,
}
use stulp.Prelude.Bits.{bit_xor_twice}
use stulp.Prelude.Results.{Error, ◌>>◌, ok, guard, invalid, then-eq-ok, bind-eq-ok, ◌>>=◌}
use stulp.Bytes.{bytes_eq, bytes_eq_sound, bytes_eq_refl}
use stulp.Matter.Buffer.{copy, copy-fits, copy-eq-ok, max}
use stulp.Matter.Ccm.{
  Mac, xor_stream, valid_nonce, started, flush, write_step, write_loop, write, pad, write_aad, mac,
  counter, crypt_loop, crypt, seal, open_wire, aad_prefix, write_all, filled, zero_filled, absorbed,
  block_of, first_flags,
}

xor_stream_twice : (bs ks : List ℕ) → xor_stream (xor_stream bs ks) ks ≡ bs
xor_stream_twice [] ks = refl
xor_stream_twice (b ∷ bs) [] = refl
xor_stream_twice (b ∷ bs) (k ∷ ks) = rw (bit_xor_twice b k, xor_stream_twice bs ks) refl

pub length-xor_stream : (bs ks : List ℕ) → length (xor_stream bs ks) ≡ length bs
length-xor_stream [] ks = refl
length-xor_stream (b ∷ bs) [] = refl
length-xor_stream (b ∷ bs) (k ∷ ks) = ap suc (length-xor_stream bs ks)

drop-all : (n : ℕ) (xs : List ℕ) → length xs ≤ n → drop n xs ≡ []
drop-all zero [] h = refl
drop-all zero (x ∷ xs) h = absurd (omega arith)
drop-all (suc n) [] h = refl
drop-all (suc n) (x ∷ xs) h = drop-all n xs (omega arith)

-- A chunk of at most 16 in front of what is empty behind a shorter one.
split_chunk :
    (x rest : List ℕ)
    → (length x ≡ 16) ⊎ ((length x ≤ 16) × (rest ≡ []))
    → (take 16 (x ++ rest) ≡ x) × (drop 16 (x ++ rest) ≡ rest)
split_chunk x rest (inl h) = (take-append x rest 16 (sym h), drop-append x rest 16 (sym h))
split_chunk x rest (inr (h, e)) = rw (e, append-nil x) (take-all 16 x h, drop-all 16 x h)

module _ (encrypt : List ℕ → List ℕ) (nonce : List ℕ) where
  crypt_loop-nil : (turns i : ℕ) → crypt_loop encrypt turns nonce i [] ≡ []
  unfolding crypt_loop
  crypt_loop-nil zero i = refl
  crypt_loop-nil (suc turns) i = refl

  crypt_loop-suc :
      (turns i : ℕ) (bytes : List ℕ)
      → crypt_loop encrypt (suc turns) nonce i bytes
        ≡ xor_stream (take 16 bytes) (counter encrypt nonce (i + 1))
          ++ crypt_loop encrypt turns nonce (i + 1) (drop 16 bytes)
  unfolding crypt_loop
  crypt_loop-suc turns i [] = sym (crypt_loop-nil turns (i + 1))
  crypt_loop-suc turns i (b ∷ bs) = refl

  length-crypt_loop :
      (turns i : ℕ) (bytes : List ℕ)
      → length (crypt_loop encrypt turns nonce i bytes) ≡ length bytes
  unfolding crypt_loop
  length-crypt_loop zero i bytes = refl
  length-crypt_loop (suc turns) i bytes =
      let stream = counter encrypt nonce (i + 1) in
      rw (crypt_loop-suc turns i bytes) (
        omega (
          arith,
          length-append (xor_stream (take 16 bytes) stream)
              (crypt_loop encrypt turns nonce (i + 1) (drop 16 bytes)),
          length-xor_stream (take 16 bytes) stream,
          length-take 16 bytes,
          length-drop 16 bytes,
          length-crypt_loop turns (i + 1) (drop 16 bytes),
        ))

  crypt_loop_twice :
      (turns i : ℕ) (bytes : List ℕ)
      → crypt_loop encrypt turns nonce i (crypt_loop encrypt turns nonce i bytes) ≡ bytes
  unfolding crypt_loop
  crypt_loop_twice zero i bytes = refl
  crypt_loop_twice (suc turns) i bytes =
      let stream = counter encrypt nonce (i + 1) in
      let x = xor_stream (take 16 bytes) stream in
      let rest = crypt_loop encrypt turns nonce (i + 1) (drop 16 bytes) in
      let (front, back) = split_chunk x rest (whole_or_last bytes (i + 1)) in
      rw
        (
          crypt_loop-suc turns i bytes,
          crypt_loop-suc turns i (x ++ rest),
          front,
          back,
          xor_stream_twice (take 16 bytes) stream,
          crypt_loop_twice turns (i + 1) (drop 16 bytes),
        )
        (take-append-drop 16 bytes)
    where
      whole_or_last :
          (bytes : List ℕ) (j : ℕ)
          → (length (xor_stream (take 16 bytes) (counter encrypt nonce j)) ≡ 16)
            ⊎ ((length (xor_stream (take 16 bytes) (counter encrypt nonce j)) ≤ 16)
                × (crypt_loop encrypt turns nonce j (drop 16 bytes) ≡ []))
      whole_or_last bytes j =
          let size = length-xor_stream (take 16 bytes) (counter encrypt nonce j) in
          elim (Bool-cases (leb 16 (length bytes))) [
            | inl long ↦ inl (ground (arith, size, length-take 16 bytes, long))
            | inr short ↦ inr (
              ground (arith, size, length-take 16 bytes, short),
              rw (drop-all 16 bytes (ground (arith, short))) (crypt_loop-nil turns j),
            )
          ]

  crypt_twice : (bytes : List ℕ) → crypt encrypt nonce (crypt encrypt nonce bytes) ≡ bytes
  unfolding crypt
  crypt_twice bytes =
      rw (length-crypt_loop (length bytes) 0 bytes) (crypt_loop_twice (length bytes) 0 bytes)

  length-crypt : (bytes : List ℕ) → length (crypt encrypt nonce bytes) ≡ length bytes
  unfolding crypt
  length-crypt bytes = length-crypt_loop (length bytes) 0 bytes

module _ (encrypt : List ℕ → List ℕ) (block : (bytes : List ℕ) → length (encrypt bytes) ≡ 16)
    (tag : ℕ) where
  abbrev Whole : Mac → Type 0
  Whole m = length m.state ≡ 16

  flush-Whole : (m : Mac) → Whole (flush encrypt m)
  unfolding flush
  flush-Whole m = block (xor_stream m.state m.partial)

  write_step-Whole : (m : Mac) (bytes : List ℕ) → Whole m → Whole (write_step encrypt m bytes)
  unfolding write_step
  write_step-Whole m bytes w = elim (Bool-cases ((filled m bytes).used == 16)) [
    | inl whole ↦ rw (whole, write_step) (flush-Whole (filled m bytes))
    | inr part ↦ rw (part, write_step) w
  ]

  write_loop-Whole :
      (turns : ℕ) (m : Mac) (bytes : List ℕ) → Whole m → Whole (write_loop encrypt turns m bytes)
  unfolding write_loop
  write_loop-Whole zero m bytes w = w
  write_loop-Whole (suc turns) m [] w = w
  write_loop-Whole (suc turns) m (b ∷ bs) w =
      write_loop-Whole turns (write_step encrypt m (b ∷ bs)) _ (write_step-Whole m (b ∷ bs) w)

  write-Whole : (m : Mac) (bytes : List ℕ) → Whole m → Whole (write encrypt m bytes)
  unfolding write
  write-Whole m bytes w = write_loop-Whole (length bytes) m bytes w

  pad-Whole : (m : Mac) → Whole m → Whole (pad encrypt m)
  unfolding pad
  pad-Whole m w = elim (Bool-cases (ltb 0 m.used)) [
    | inl some_left ↦ rw (some_left, pad) (flush-Whole (zero_filled m))
    | inr done ↦ rw (done, pad) w
  ]

  write_all-Whole : (m : Mac) (parts : List (List ℕ)) → Whole m → Whole (write_all encrypt m parts)
  write_all-Whole m [] w = w
  write_all-Whole m (bytes ∷ rest) w =
      write_all-Whole (write encrypt m bytes) rest (write-Whole m bytes w)

  write_aad-Whole : (m : Mac) (aad : List ℕ) → Whole m → Whole (write_aad encrypt m aad)
  unfolding write_aad
  write_aad-Whole m [] w = w
  write_aad-Whole m (b ∷ bs) w =
      let begun = write_all encrypt m (aad_prefix (length (b ∷ bs))) in
      pad-Whole (write encrypt begun (b ∷ bs))
        (write-Whole begun (b ∷ bs) (write_all-Whole m (aad_prefix (length (b ∷ bs))) w))

  absorbed-Whole : (nonce plain aad : List ℕ) → Whole (absorbed encrypt tag nonce plain aad)
  unfolding absorbed
  absorbed-Whole nonce plain aad =
      let first = block_of (first_flags encrypt tag nonce aad) nonce (length plain) in
      let begun = write encrypt started first in
      let headed = write_aad encrypt begun aad in
      pad-Whole (write encrypt headed plain)
        (write-Whole headed plain (write_aad-Whole begun aad (write-Whole started first refl)))

  -- A sum has 16 bytes, and its nonce is valid.
  mac-Whole :
      (nonce plain aad : List ℕ) {sum : List ℕ}
      → mac encrypt tag nonce plain aad ≡ ok sum
      → (length sum ≡ 16) × (valid_nonce nonce ≡ ok tt)
  unfolding mac
  mac-Whole nonce plain aad {sum} h =
      let (valid, rest) = then-eq-ok (valid_nonce nonce) _ h in
      let test =
        guard (not (ltb 65535 (length plain) || ltb 65535 (length aad)))
          (invalid "CCM input too long") in
      let (short, last) = then-eq-ok test (ok (absorbed encrypt tag nonce plain aad).state) rest in
      let same : (absorbed encrypt tag nonce plain aad).state ≡ sum = cc last in
      (rw (sym same) (absorbed-Whole nonce plain aad), valid)

  abbrev mic_of : List ℕ → List ℕ → List ℕ
  mic_of nonce sum = take tag (xor_stream sum (counter encrypt nonce 0))

  module _ (small : tag ≤ 16) where
    length-mic : (nonce sum : List ℕ) → length sum ≡ 16 → length (mic_of nonce sum) ≡ tag
    length-mic nonce sum h =
        let mask = counter encrypt nonce 0 in
        omega (arith, length-take tag (xor_stream sum mask), length-xor_stream sum mask, h, small)

    -- What `open` does with a wire of a known ciphertext and checksum.
    open_wire-append :
        (nonce plain aad sum : List ℕ)
        → mac encrypt tag nonce plain aad ≡ ok sum
        → length plain ≤ max
        → open_wire encrypt tag nonce (crypt encrypt nonce plain ++ mic_of nonce sum) aad ≡ ok plain
    unfolding open_wire
    open_wire-append nonce plain aad sum summed fits =
        let (whole, valid) = mac-Whole nonce plain aad summed in
        let body = crypt encrypt nonce plain in
        let mic = mic_of nonce sum in
        let size = length-mic nonce sum whole in
        let all : length (body ++ mic) ≡ length body + length mic = length-append body mic in
        let long : leb tag (length (body ++ mic)) ≡ true = ground (arith, all, size) in
        let cut : length (body ++ mic) - tag ≡ length body = omega (arith, all, size) in
        let front = take-append body mic (length body) refl in
        let back = drop-append body mic (length body) refl in
        let copied = copy-eq-ok body (omega (arith, length-crypt encrypt nonce plain, fits)) in
        rw
          (
            valid,
            long,
            cut,
            front,
            back,
            copied,
            crypt_twice encrypt nonce plain,
            summed,
            bytes_eq_refl mic,
          )
          refl

    -- What `seal` gives is what `open` takes back.
    pub open_wire-seal :
        (nonce plain aad wire : List ℕ)
        → seal encrypt tag nonce plain aad ≡ ok wire
        → open_wire encrypt tag nonce wire aad ≡ ok plain
    unfolding seal
    open_wire-seal nonce plain aad wire h =
        let (sum, summed, rest) =
          bind-eq-ok (mac encrypt tag nonce plain aad)
            (λ sum. copy plain >>= λ out. ok (crypt encrypt nonce out ++ mic_of nonce sum)) h in
        let (out, copied, last) =
          bind-eq-ok (copy plain) (λ out. ok (crypt encrypt nonce out ++ mic_of nonce sum)) rest in
        let (same, fits) = copy-fits plain out copied in
        let made : crypt encrypt nonce out ++ mic_of nonce sum ≡ wire = cc last in
        rw (sym made, same) (open_wire-append nonce plain aad sum summed fits)

    -- What `seal` does with a plain text of a known checksum.
    seal-summed :
        (nonce plain aad sum : List ℕ)
        → mac encrypt tag nonce plain aad ≡ ok sum
        → length plain ≤ max
        → seal encrypt tag nonce plain aad ≡ ok (crypt encrypt nonce plain ++ mic_of nonce sum)
    unfolding seal
    seal-summed nonce plain aad sum summed fits = rw (summed, copy-eq-ok plain fits) refl

    -- A wire that `open` accepts is the one that `seal` gives for the text it answers.
    pub seal-open_wire :
        (nonce plain aad wire : List ℕ)
        → open_wire encrypt tag nonce wire aad ≡ ok plain
        → seal encrypt tag nonce plain aad ≡ ok wire
    unfolding open_wire
    seal-open_wire nonce plain aad wire h =
        let cut = length wire - tag in
        let (valid, h1) = then-eq-ok (valid_nonce nonce) _ h in
        let (long, h2) =
          then-eq-ok (guard (leb tag (length wire)) (invalid "CCM ciphertext shorter than MIC")) _
            h1 in
        let (out, copied, h3) = bind-eq-ok (copy (take cut wire)) _ h2 in
        let (sum, summed, h4) =
          bind-eq-ok (mac encrypt tag nonce (crypt encrypt nonce out) aad)
            (λ sum.
              guard (bytes_eq (mic_of nonce sum) (drop cut wire))
                (invalid "CCM authentication failed")
              >> ok (crypt encrypt nonce out))
            h3 in
        let (checked, h5) =
          then-eq-ok
            (guard (bytes_eq (mic_of nonce sum) (drop cut wire))
              (invalid "CCM authentication failed"))
            (ok (crypt encrypt nonce out)) h4 in
        let (body, fits) = copy-fits (take cut wire) out copied in
        let answer : crypt encrypt nonce out ≡ plain = cc h5 in
        let same_mic = bytes_eq_sound (mic_of nonce sum) (drop cut wire) (passed _ _ checked) in
        let back : crypt encrypt nonce plain ≡ take cut wire =
          rw (sym answer) (crypt_twice encrypt nonce out ∙ body) in
        let size : length plain ≤ max = omega (
          arith,
          ap (λ (t : List ℕ). length t) answer,
          length-crypt encrypt nonce out,
          ap (λ (t : List ℕ). length t) body,
          fits,
        ) in
        seal-summed nonce plain aad sum (rw answer at summed) size
        ∙ rw (back, same_mic, take-append-drop cut wire) refl
      where
        passed : (b : Bool) (e : Error) → guard b e ≡ ok tt → b ≡ true
        passed b e h = elim (Bool-cases b) [ inl t ↦ t | inr f ↦ absurd (cc (rw f at h)) ]
