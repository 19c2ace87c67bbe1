-- ===== src/Bencode/Encoding/Growth.antt =====
-- src/bencode.c, buf_ensure and buf_append: the buffer grows enough, and a write extends it.
use native.Mathlib.Nat.{pow-suc}
use ps5torrent.Base.{
  Grants, ℕ, zero, suc, ◌+◌, ◌*◌, ◌%◌, ◌^◌, ◌≤◌, ◌<◌, ◌≡◌, refl, ap, ◌∙◌, true, false, [], ◌∷◌,
  ◌++◌, Bytes, length, length-append, append_assoc, leb, ltb, ◌==◌, arith, Bool-cases, inl, inr,
  if◌then◌else◌, tests, Bool,
}
use ps5torrent.Base.Outcome.{Outcome, ok, ◌>>=◌, Runs, holds, refused, Runs-if, Runs-bind}
use ps5torrent.Bencode.Encoder.{Buffer, grow, buf_ensure, store, put_byte}

grow_stop : (f wanted c : ℕ) → leb c wanted ≡ false → grow (suc f) wanted c ≡ ok c
unfolding grow
grow_stop f wanted c fits = rw fits

grow_step :
    (f wanted c : ℕ)
    → leb c wanted ≡ true
    → c ≤ 2 ^ 62
    → grow (suc f) wanted c ≡ grow f wanted (c * 2)
unfolding grow
grow_step f wanted c low q =
    rw low (ap (λ t. grow f wanted t) (let e : c * 2 % 2 ^ 64 ≡ c * 2 = omega arith in e))

-- The doubling loop ends above `wanted`.
pub grow_lem :
    (f wanted c : ℕ)
    → 0 < c
    → c ≤ 2 ^ 62
    → wanted < 2 ^ 60
    → wanted < c * 2 ^ f
    → (c' : ℕ) × (grow (suc f) wanted c ≡ ok c') × (wanted < c') × (c' ≤ 2 ^ 62)
grow_lem zero wanted c p q b h = elim (Bool-cases (leb c wanted)) [
  | inl low ↦ absurd (omega (tests, low))
  | inr fits ↦ (c, grow_stop _ wanted c fits, ground arith, q)
]
grow_lem (suc f) wanted c p q b h = elim (Bool-cases (leb c wanted)) [
  | inl low ↦
      let (c', g, l, u) =
        grow_lem f wanted (c * 2) (omega arith) (omega (tests, low)) b
          (omega (arith, ap (λ t. c * t) (pow-suc 2 f))) in
      (c', grow_step (suc f) wanted c low q ∙ g, l, u)
  | inr fits ↦ (c, grow_stop _ wanted c fits, ground arith, q)
]

-- The capacity covers what is written and stays far below the range of a size_t.
pub record Fits (buf : Buffer) : Type 0 where
  pub covers : length buf.bytes ≤ buf.cap
  pub bounded : buf.cap ≤ 2 ^ 62

module _ (realloc : ℕ → Bool) where
  -- After a run the buffer holds exactly `s`; the run failed only where an allocation did.
  abbrev pub Holds : Bytes → Outcome Buffer → Type 0
  Holds s = Runs (Grants realloc) (λ buf'. (buf'.bytes ≡ s) × Fits buf')

  buf_ensure_lem :
      (buf : Buffer) (need : ℕ)
      → Fits buf
      → length buf.bytes + need < 2 ^ 60
      → Runs
          (Grants realloc)
          (λ buf'. (buf'.bytes ≡ buf.bytes) × Fits buf' × (length buf.bytes + need ≤ buf'.cap))
          (buf_ensure realloc buf need)
  unfolding buf_ensure
  buf_ensure_lem buf need fits small =
      Runs-if (ltb (length buf.bytes + need) buf.cap) (λ h. holds (refl, fits, omega (tests, h)))
        (λ h.
          let (c', e, l, u) =
            grow_lem 64 (length buf.bytes + need) (if buf.cap == 0 then 256 else buf.cap * 2)
              (ground arith) (ground (arith, fits.bounded)) small (ground arith) in
          rw e (
            Runs-if (realloc c') (λ _. holds (refl, ground arith, ground arith))
              (λ no_mem. refused (λ g. cc (g c' u, no_mem)))))

  store_lem :
      (buf : Buffer) (s : Bytes)
      → Fits buf
      → length buf.bytes + length s ≤ buf.cap
      → Holds (buf.bytes ++ s) (store realloc buf s)
  store_lem buf s fits room =
      Runs-if (leb (length buf.bytes + length s) buf.cap)
        (λ h. holds (
          refl,
          record { covers = omega (arith, length-append buf.bytes s); bounded = fits.bounded },
        ))
        (λ h. absurd (ground arith))

  pub put_lem :
      (buf : Buffer) (need : ℕ) (s : Bytes)
      → Fits buf
      → length s ≤ need
      → length buf.bytes + need < 2 ^ 60
      → Holds (buf.bytes ++ s) (buf_ensure realloc buf need >>= λ buf'. store realloc buf' s)
  put_lem buf need s fits le small =
      Runs-bind (buf_ensure_lem buf need fits small) λ buf' (same, fits', room).
        rw (← same) (store_lem buf' s fits' (omega (arith, ap length same)))

  -- One write after another.
  pub then_lem :
      (b s t : Bytes) {r : Outcome Buffer} {f : Buffer → Outcome Buffer}
      → Holds (b ++ s) r
      → ((buf' : Buffer) → buf'.bytes ≡ b ++ s → Fits buf' → Holds (buf'.bytes ++ t) (f buf'))
      → Holds (b ++ (s ++ t)) (r >>= f)
  then_lem b s t h k = Runs-bind h λ buf' (e, fits). rw (← append_assoc b s t, ← e) (k buf' e fits)

  pub put_byte_lem :
      (buf : Buffer) (need c : ℕ)
      → Fits buf
      → 1 ≤ need
      → length buf.bytes + need < 2 ^ 60
      → Holds (buf.bytes ++ c ∷ []) (put_byte realloc buf need c)
  unfolding put_byte
  put_byte_lem buf need c fits le small = put_lem buf need (c ∷ []) fits le small
