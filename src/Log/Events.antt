-- ===== src/Log/Events.antt =====
-- a_log_str_syslog of a/to_do/log.c, as it is built on Windows: the tables by priority, and what is
-- reported to the event log.
use alib4c.Common.{
  ℕ, zero, suc, ◌+◌, ◌*◌, ◌/◌, ◌%◌, ◌^◌, ◌≤◌, ◌≡◌, refl, inl, inr, Bool, List, [], ◌∷◌, ltb,
  if◌then◌else◌, length, get_or, arith, Bool-cases,
}

-- EVENTLOG_SUCCESS and the other types
pub data EventType : Type 0 where
  success_type information_type warning_type error_type : EventType

-- ReportEvent, with the type, the category and the event, or an error of the library.
pub data Outcome : Type 0 where
  invalid_op too_large : Outcome
  reported : EventType → ℕ → ℕ → Bool → Outcome

-- The codes of a/to_do/log.h: a_event_log_cat_* and a_event_log_msg_*.
abbrev pub categories : List ℕ
categories =
    3758096385 ∷ 3758096386 ∷ 3758096387 ∷ 3758096388 ∷ 2684354565 ∷ 2684354566 ∷ 1610612743
    ∷ 1610612744 ∷ []

abbrev pub msg_success : ℕ
msg_success = 536870921

abbrev pub msg_info : ℕ
msg_info = 1610612746

abbrev pub msg_warn : ℕ
msg_warn = 2684354571

abbrev pub msg_error : ℕ
msg_error = 3758096396

-- The casts to WORD keep 16 bits.
unfoldable pub prio2category : ℕ → ℕ
prio2category prio = get_or categories prio 0 % 2 ^ 16

unfoldable pub prio2event : ℕ → ℕ
prio2event prio =
    get_or
      (msg_error ∷ msg_error ∷ msg_error ∷ msg_error ∷ msg_warn ∷ msg_warn ∷ msg_info ∷ msg_success
        ∷ [])
      prio 0

unfoldable pub prio2type : ℕ → EventType
prio2type prio =
    get_or
      (error_type ∷ error_type ∷ error_type ∷ error_type ∷ warning_type ∷ warning_type
        ∷ information_type ∷ success_type ∷ [])
      prio success_type

-- `takes` is the answer of ReportEvent, for the text.
unfoldable pub a_log_str_event : (List ℕ → Bool) → ℕ → List ℕ → Outcome
a_log_str_event takes prio str =
    if ltb 7 prio
    then invalid_op
    else (if ltb (32 * 1024) (length str)
        then too_large
        else reported (prio2type prio) (prio2category prio) (prio2event prio) (takes str))

-- The severity of a type, as the two highest bits of the code of an event have it.
abbrev pub severity : EventType → ℕ
severity success_type = 0
severity information_type = 1
severity warning_type = 2
severity error_type = 3

-- A refused priority or text, or a report whose type is that of its event, under the category that counts
-- the priorities from 1.
abbrev pub Reports : ℕ → List ℕ → Outcome → Type 0
Reports prio str invalid_op = 8 ≤ prio
Reports prio str too_large = 32769 ≤ length str
Reports prio str (reported type category event taken) =
    (prio ≤ 7) × (length str ≤ 32768) × (event / 2 ^ 30 ≡ severity type) × (category ≡ prio + 1)

abbrev Fits : ℕ → Type 0
Fits prio = (prio2event prio / 2 ^ 30 ≡ severity (prio2type prio)) × (prio2category prio ≡ prio + 1)

tables-Fit : (prio : ℕ) → prio ≤ 7 → Fits prio
unfolding prio2event prio2type prio2category
tables-Fit zero h = (refl, refl)
tables-Fit (suc zero) h = (refl, refl)
tables-Fit (suc (suc zero)) h = (refl, refl)
tables-Fit (suc (suc (suc zero))) h = (refl, refl)
tables-Fit (suc (suc (suc (suc zero)))) h = (refl, refl)
tables-Fit (suc (suc (suc (suc (suc zero))))) h = (refl, refl)
tables-Fit (suc (suc (suc (suc (suc (suc zero)))))) h = (refl, refl)
tables-Fit (suc (suc (suc (suc (suc (suc (suc zero))))))) h = (refl, refl)
tables-Fit (suc (suc (suc (suc (suc (suc (suc (suc n)))))))) h = absurd (omega (arith, h))

-- A text is refused when its priority is above 7, and else when it has more than 32 * 1024 bytes; any
-- other is reported, under the category of its priority counted from 1, as an event whose code has the
-- severity of its type.
pub str_event-Reports :
    (takes : List ℕ → Bool) (prio : ℕ) (str : List ℕ)
    → Reports prio str (a_log_str_event takes prio str)
unfolding a_log_str_event
str_event-Reports takes prio str = elim (Bool-cases (ltb 7 prio)) [
  | inl h ↦ rw h (ground (arith, h))
  | inr h ↦ elim (Bool-cases (ltb (32 * 1024) (length str))) [
    | inl g ↦ rw (h, g) (ground (arith, g))
    | inr g ↦
        let low : prio ≤ 7 = ground (arith, h) in
        let short : length str ≤ 32768 = ground (arith, g) in
        let (e, c) = tables-Fit prio low in rw (h, g) (low, short, e, c)
  ]
]
