-- ===== src/Buffers/Writing.antt =====
-- When write_buf of old/buffers.c sends the whole buffer, and when it never returns.
use alib4c.Common.{
  ℕ, zero, suc, ◌+◌, ◌-◌, ◌<◌, ◌≤◌, ◌≡◌, refl, ap, sym, ◌∙◌, true, false, ltb, none, some, List, [],
  ◌∷◌, ◌++◌, ◌==◌, length, take, drop, take-drop, arith, Bool-cases, inl, inr,
}
use native.Mathlib.Nat.{zero-add, suc-add}
use mathlib.Core.List.{append-nil, append_assoc}
use alib4c.Buffers.{Writes, returned_zero, outside, int_limit, after_first, write_loop, write_buf}

-- Every write takes something of what it is handed, and nothing of nothing.
abbrev pub Progresses : Writes → Type 0
Progresses writes = (i n : ℕ) → (k : ℕ) × (writes i n ≡ some k) × (k ≤ n) × (0 < n → 0 < k)

-- a buffer whose length is an int
int_length :
    (fuel : ℕ) (writes : Writes) (buf : List ℕ)
    → length buf < int_limit
    → write_buf fuel writes buf ≡ after_first fuel writes buf (writes 0 (length buf))
unfolding write_buf
int_length fuel writes buf h =
    let e : ltb (length buf) int_limit ≡ true = ground (arith, h) in rw e refl

drop-nil : (j : ℕ) → drop {A = ℕ} j [] ≡ []
drop-nil zero = refl
drop-nil (suc j) = refl

drop_past : (k : ℕ) (s : List ℕ) → length s ≤ k → drop k s ≡ []
drop_past zero [] h = refl
drop_past zero (c ∷ s) h = absurd (omega (arith, h))
drop_past (suc k) [] h = refl
drop_past (suc k) (c ∷ s) h = drop_past k s (omega (arith, h))

drop-drop : (j k : ℕ) (s : List ℕ) → drop j (drop k s) ≡ drop (k + j) s
drop-drop j zero s = rw (zero-add j) refl
drop-drop j (suc k) [] = rw (suc-add k j) (drop-nil j)
drop-drop j (suc k) (c ∷ s) = rw (suc-add k j) (drop-drop j k s)

-- The state of the loop: the last write took `k` bytes at `tmp`, where `len` were left.
loop-sends :
    (fuel i tmp len k : ℕ) (writes : Writes) (buf sent : List ℕ)
    → Progresses writes
    → len ≡ length buf - tmp
    → k ≤ len
    → (0 < len → 0 < k)
    → len < fuel
    → sent ++ drop (tmp + k) buf ≡ buf
    → write_loop fuel writes buf i tmp len (some k) sent ≡ returned_zero buf
unfolding write_loop
loop-sends zero i tmp len k writes buf sent p l b c f s = absurd (omega (arith, f))
loop-sends (suc n) i tmp len k writes buf sent p l b c f s = elim (Bool-cases (k == len)) [
  | inl e ↦ rw e (
      ap returned_zero (
        sym (append-nil sent)
        ∙ ap (λ t. sent ++ t) (sym (drop_past (tmp + k) buf (ground (arith, e, l))))
        ∙ s))
  | inr e ↦
      let (j, w, b2, c2) = p i (len - k) in
      let moved : (sent ++ take j (drop (tmp + k) buf)) ++ drop (tmp + k + j) buf ≡ buf =
        append_assoc sent (take j (drop (tmp + k) buf)) (drop (tmp + k + j) buf)
        ∙ ap (λ t. sent ++ t)
            (ap (λ t. take j (drop (tmp + k) buf) ++ t) (sym (drop-drop j (tmp + k) buf))
              ∙ take-drop j (drop (tmp + k) buf))
        ∙ s in
      rw (e, w)
        (loop-sends n (suc i) (tmp + k) (len - k) j writes buf (sent ++ take j (drop (tmp + k) buf))
          p (omega (arith, l)) b2 c2 (ground (arith, e, b, c, f)) moved)
]

-- When the buffer is shorter than 2^31 bytes, and every write takes at least a byte, and never more than
-- it is handed, write_buf returns 0 within
-- as many rounds as the buffer has bytes, and it has sent the buffer, each byte once and in order.
pub write_buf-sends :
    (fuel : ℕ) (writes : Writes) (buf : List ℕ)
    → Progresses writes
    → length buf < fuel
    → length buf < int_limit
    → write_buf fuel writes buf ≡ returned_zero buf
write_buf-sends fuel writes buf p f small =
    let (k, w, b, c) = p 0 (length buf) in
    rw (int_length fuel writes buf small, w)
      (loop-sends fuel 1 0 (length buf) k writes buf (take k buf) p (omega arith) b c f
        (rw (zero-add k) (take-drop k buf)))

-- The state of the loop after a write that failed: as long as they fail, it goes back.
loop-outside :
    (tmp fuel i len : ℕ) (writes : Writes) (buf sent : List ℕ)
    → ((j n : ℕ) → 0 < j → writes j n ≡ none)
    → 0 < i
    → tmp < fuel
    → write_loop fuel writes buf i tmp len none sent ≡ outside
unfolding write_loop
loop-outside tmp zero i len writes buf sent h p f = absurd (omega (arith, f))
loop-outside zero (suc n) i len writes buf sent h p f = refl
loop-outside (suc tmp) (suc n) i len writes buf sent h p f = rw (h i (len + 1) p) (
    loop-outside tmp n (suc i) (len + 1) writes buf (sent ++ []) h (omega arith) (omega (arith, f)))

-- When the first write takes a part of a buffer shorter than 2^31 bytes and all the later ones fail, write_buf reports
-- nothing: it steps back a byte a round until it hands write an address before the buffer.
pub write_buf-outside :
    (fuel k : ℕ) (writes : Writes) (buf : List ℕ)
    → writes 0 (length buf) ≡ some k
    → k < length buf
    → ((j n : ℕ) → 0 < j → writes j n ≡ none)
    → suc k < fuel
    → length buf < int_limit
    → write_buf fuel writes buf ≡ outside
unfolding write_loop
write_buf-outside zero k writes buf w b h f small = absurd (omega (arith, f))
write_buf-outside (suc n) k writes buf w b h f small =
    let e : (k == length buf) ≡ false = ground (arith, b) in
    rw (int_length (suc n) writes buf small, w, write_loop, e, h 1 (length buf - k) (omega arith))
      (loop-outside (0 + k) n 2 (length buf - k) writes buf (take k buf ++ []) h (omega arith)
        (omega (arith, f)))
