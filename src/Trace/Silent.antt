-- ===== src/Trace/Silent.antt =====
-- Why a_error_str of a/old/error.c never has a text.
use alib4c.Common.{
  ℕ, ◌+◌, ◌≡◌, refl, Bool, true, false, Option, none, List, [], ◌∷◌, if◌then◌else◌, length, arith,
  Bool-cases, inl, inr,
}
use alib4c.World.{
  Ptr, World, Run, ok, fault, died, Returns, malloc, emit, block_freed, head_or_false, and_then,
}
use alib4c.World.Log.{blocks_freed, vals_freed}
use alib4c.Trace.{
  Module, new_item, text_of, TraceItem, Trace, has_arg, free_item, free_stack, malloc_error,
  push_or_free, add_loop, a_error_add_vargs, str_loop, a_error_str,
}

-- No item has a module.
abbrev pub Bare : List TraceItem → Type 0
Bare [] = Unit
Bare (item ∷ items) = (item.error_mod ≡ none) × Bare items

-- what a run gives, if it returns, has no module
abbrev pub GivesBare : Run Trace → Type 0
GivesBare (ok t w) = Bare t.items
GivesBare fault = Unit
GivesBare died = Unit

if-Bare : (b : Bool) (r q : Run Trace) → GivesBare r → GivesBare q → GivesBare (if b then r else q)
if-Bare true r q h g = h
if-Bare false r q h g = g

bind-Bare :
    (r : Run Trace) (k : Trace → World → Run Trace)
    → GivesBare r
    → ((t : Trace) (w : World) → Bare t.items → GivesBare (k t w))
    → GivesBare (and_then r k)
bind-Bare (ok t w) k h f = f t w h
bind-Bare fault k h f = tt
bind-Bare died k h f = tt

add-Bare :
    (r : Run Ptr) (k : Ptr → World → Run Trace)
    → ((arg : Ptr) (w : World) → GivesBare (k arg w))
    → GivesBare (and_then r k)
add-Bare (ok arg w) k f = f arg w
add-Bare fault k f = tt
add-Bare died k f = tt

push-Bare : (t : Trace) (arg : Ptr) (w : World) → Bare t.items → GivesBare (push_or_free t arg w)
unfolding push_or_free
push-Bare t arg w h =
    if-Bare (has_arg arg) (ok (record t { items = record new_item { arg = arg } ∷ t.items }) w)
      (ok t (emit block_freed w)) (refl, h) h

add_loop-Bare :
    (modules : List (Module × ℕ)) (t : Trace) (w : World)
    → Bare t.items
    → GivesBare (add_loop t modules w)
unfolding add_loop malloc_error
add_loop-Bare [] t w h = h
add_loop-Bare ((m, value) ∷ more) t w h =
    if-Bare (head_or_false w.mallocs)
      (and_then (and_then (m.add value (malloc w).1) (push_or_free t)) (λ u. add_loop u more))
      (ok (record { items = []; malloc_failed = true }) (free_stack t.items (malloc w).1))
      (bind-Bare (and_then (m.add value (malloc w).1) (push_or_free t)) (λ u. add_loop u more)
        (add-Bare (m.add value (malloc w).1) (push_or_free t) (λ arg v. push-Bare t arg v h))
        (λ u v g. add_loop-Bare more u v g))
      tt

-- From a list whose items have no module, adding any errors, with any modules and whatever malloc
-- answers, gives such a list again: the module of an error is never stored with it.
pub add_vargs-Bare :
    (t : Trace) (modules : List (Module × ℕ)) (w : World)
    → Bare t.items
    → GivesBare (a_error_add_vargs t modules w)
unfolding a_error_add_vargs
add_vargs-Bare t modules w h =
    if-Bare t.malloc_failed (ok t w) (add_loop t modules w) h (add_loop-Bare modules t w h)

module _ (item : TraceItem) (e : item.error_mod ≡ none) where
  bare_text : (out : Option (List ℕ)) (w : World) → text_of item out w ≡ ok (true, out) w
  bare_text out w = rw (text_of, e) refl

  bare_free : (w : World) → free_item item w ≡ emit block_freed w
  unfolding free_item
  bare_free w = elim (Bool-cases (has_arg item.arg)) [ inl h ↦ rw (h, e) refl | inr h ↦ rw h refl ]

str_loop-silent :
    (items : List TraceItem) (w : World)
    → Bare items
    → Returns (str_loop items none w) (λ out v.
      (out ≡ none)
      × (blocks_freed v.log ≡ length items + blocks_freed w.log)
      × ((f : Ptr → ℕ) → vals_freed f v.log ≡ vals_freed f w.log))
unfolding str_loop
str_loop-silent [] w h = (none, w, refl, (refl, omega arith, λ f. refl))
str_loop-silent (item ∷ items) w (e, h) =
    let (out, v, r, (n, b, f)) = str_loop-silent items (emit block_freed w) h in
    (out, v, rw (bare_text item e none w, bare_free item e w) r, (n, omega (arith, b), f))

-- From such a list a_error_str returns NULL whatever errors it holds, and frees its items but none of
-- their arguments.
pub str-silent :
    (t : Trace) (w : World)
    → Bare t.items
    → t.malloc_failed ≡ false
    → Returns (a_error_str t w) (λ (out, u) v.
      (out ≡ none)
      × (u.items ≡ [])
      × (blocks_freed v.log ≡ length t.items + blocks_freed w.log)
      × ((f : Ptr → ℕ) → vals_freed f v.log ≡ vals_freed f w.log))
unfolding a_error_str
str-silent t w h e =
    let (out, v, r, (n, b, f)) = str_loop-silent t.items w h in
    ((out, record t { items = [] }), v, rw (e, r) refl, (n, refl, b, f))

if_true : {A : Type 0} (b : Bool) (x y : A) → b ≡ true → (if b then x else y) ≡ x
if_true b x y e = rw e refl

empty-Bare : (t : Trace) (r : Run Trace) (v : World) → r ≡ ok t v → GivesBare r → Bare t.items
empty-Bare t r v e h = rw e at h

-- Whatever errors are added to a list that was empty, with whatever modules, a_error_str then returns
-- NULL, and frees the argument of none of them.
pub added-silent :
    (t u : Trace) (modules : List (Module × ℕ)) (w v : World)
    → t.items ≡ []
    → a_error_add_vargs t modules w ≡ ok u v
    → Returns
        (a_error_str u v)
        (λ (out, s) x. (out ≡ none) × ((f : Ptr → ℕ) → vals_freed f x.log ≡ vals_freed f v.log))
unfolding a_error_str
added-silent t u modules w v e r = go u.malloc_failed refl
  where
    none_stored : Bare u.items
    none_stored =
        empty-Bare u (a_error_add_vargs t modules w) v r (add_vargs-Bare t modules w (rw e tt))

    go :
        (b : Bool)
        → u.malloc_failed ≡ b
        → Returns
            (a_error_str u v)
            (λ (out, s) x. (out ≡ none) × ((f : Ptr → ℕ) → vals_freed f x.log ≡ vals_freed f v.log))
    go true h = ((none, u), v, if_true u.malloc_failed _ _ h, (refl, λ f. refl))
    go false h =
        let ((out, s), x, k, (n, i, b, f)) = str-silent u v none_stored h in
        ((out, s), x, k, (n, f))
