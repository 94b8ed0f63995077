-- ===== src/Clean/Thorough.antt =====
-- a_clean_vargs of a/old/clean.c goes on behind a failure.
use alib4c.Common.{
  ℕ, ◌≡◌, refl, ap, sym, ◌∙◌, Bool, true, false, ◌||◌, not, List, [], ◌∷◌, ◌++◌, ◌==◌,
  if◌then◌else◌, Bool-cases, inl, inr,
}
use mathlib.Core.List.{append-nil, append_assoc}
use alib4c.World.{
  Ptr, null, World, Run, Returns, ok, emit, block_freed, and_then, malloc, head_or_false,
}
use alib4c.Trace.{
  Module, Trace, new_item, has_arg, push_or_free, add_loop, malloc_error, a_error_add_vargs,
}
use alib4c.Clean.{
  CleanCall, clean_socket, clean_fd, clean_file_ptr, clean_free, clean_unmap, clean_unlink, Action,
  close_fd, close_file, free_ptr, unmap_region, unlink_file, Desk, Host, is_negative, perform,
  clean_one, clean_loop, a_clean_vargs,
}

-- the call of the system that a cleanup stands for; none for what is not there
abbrev pub action_of : CleanCall → List Action
action_of (clean_socket s) = if is_negative s then [] else close_fd s ∷ []
action_of (clean_fd fd) = if is_negative fd then [] else close_fd fd ∷ []
action_of (clean_file_ptr p) = if p == null then [] else close_file p ∷ []
action_of (clean_free p) = if p == null then [] else free_ptr p ∷ []
action_of (clean_unmap p size) = if (p == null) || (size == 0) then [] else unmap_region p size ∷ []
action_of (clean_unlink file) = unlink_file file ∷ []

abbrev pub actions_of : List CleanCall → List Action
actions_of [] = []
actions_of (c ∷ calls) = action_of c ++ actions_of calls

-- free has no result to fail by
abbrev pub any_fails : Host → List Action → Bool
any_fails host [] = false
any_fails host (free_ptr p ∷ actions) = any_fails host actions
any_fails host (action ∷ actions) = not (host.succeeds action) || any_fails host actions

-- The module makes its argument, or gives NULL, and returns.
abbrev pub Adds : Module → Type 0
Adds m = (value : ℕ) (w : World) → Returns (m.add value w) (λ p v. Unit {0})

if-Returns :
    {A : Type 0} {P : A → World → Type 0} (b : Bool) (r q : Run A)
    → Returns r P
    → Returns q P
    → Returns (if b then r else q) P
if-Returns true r q h g = h
if-Returns false r q h g = g

bind-Returns :
    {A B : Type 0} {P : A → World → Type 0} {Q : B → World → Type 0} (r : Run A)
    (k : A → World → Run B)
    → Returns r P
    → ((a : A) (w : World) → P a w → Returns (k a w) Q)
    → Returns (and_then r k) Q
bind-Returns r k (a, v, e, h) f = rw e (f a v h)

add_vargs-returns :
    (t : Trace) (m : Module) (w : World)
    → Adds m
    → Returns (a_error_add_vargs t ((m, 0) ∷ []) w) (λ u v. Unit {0})
unfolding a_error_add_vargs add_loop push_or_free
add_vargs-returns t m w h =
    if-Returns t.malloc_failed (ok t w) (add_loop t ((m, 0) ∷ []) w) (t, w, refl, tt)
      (if-Returns (head_or_false w.mallocs)
        (and_then (and_then (m.add 0 (malloc w).1) (push_or_free t)) (λ u v. ok u v))
        (ok (malloc_error t (malloc w).1).0 (malloc_error t (malloc w).1).1)
        (bind-Returns (and_then (m.add 0 (malloc w).1) (push_or_free t)) (λ u v. ok u v)
          (bind-Returns (m.add 0 (malloc w).1) (push_or_free t) (h 0 (malloc w).1)
            (λ arg v x. pushed arg v))
          (λ u v x. (u, v, refl, tt)))
        (_, _, refl, tt))
  where
    pushed : (arg : Ptr) (v : World) → Returns (push_or_free t arg v) (λ u v. Unit {0})
    pushed arg v =
        if-Returns (has_arg arg)
          (ok (record t { items = record new_item { arg = arg } ∷ t.items }) v)
          (ok t (emit block_freed v)) (_, _, refl, tt) (_, _, refl, tt)

-- how one step ends
abbrev Performed : Host → Desk → List Action → Bool × Desk → World → Type 0
Performed host d actions (status, e) w =
    (e.actions ≡ d.actions ++ actions) × (status ≡ any_fails host actions)

perform-Performed :
    (host : Host) (action : Action) (m : Module) (d : Desk) (w : World)
    → Adds m
    → Returns (perform host action m d w) (λ (status, e) v.
      (e.actions ≡ d.actions ++ action ∷ []) × (status ≡ not (host.succeeds action)))
unfolding perform
perform-Performed host action m d w h = elim (Bool-cases (host.succeeds action)) [
  | inl c ↦ ((false, done), w, rw c refl, (refl, rw c refl))
  | inr c ↦
      let (t, v, e, x) = add_vargs-returns d.trace m w h in
      ((true, record done { trace = t }), v, rw (c, e) refl, (refl, rw c refl))
]
  where
    done : Desk
    done = record d { actions = d.actions ++ action ∷ [] }

or_false : (b : Bool) → b ≡ (b || false)
or_false true = refl
or_false false = refl

or_assoc : (a b c : Bool) → ((a || b) || c) ≡ (a || (b || c))
or_assoc true b c = refl
or_assoc false b c = refl

guarded-Performed :
    (host : Host) (skip : Bool) (action : Action) (m : Module) (d : Desk) (w : World)
    → any_fails host (action ∷ []) ≡ (not (host.succeeds action) || false)
    → Adds m
    → Returns
        (if skip then ok (false, d) w else perform host action m d w)
        (Performed host d (if skip then [] else action ∷ []))
guarded-Performed host true action m d w e h =
    ((false, d), w, refl, (sym (append-nil d.actions), refl))
guarded-Performed host false action m d w e h =
    let ((status, f), v, r, (a, s)) = perform-Performed host action m d w h in
    ((status, f), v, r, (a, s ∙ or_false (not (host.succeeds action)) ∙ sym e))

clean_one-Performed :
    (host : Host) (c : CleanCall) (d : Desk) (w : World)
    → Adds host.posix
    → Adds host.stdc
    → Returns (clean_one host c d w) (Performed host d (action_of c))
unfolding clean_one
clean_one-Performed host (clean_socket s) d w p q =
    guarded-Performed host (is_negative s) (close_fd s) host.posix d w refl p
clean_one-Performed host (clean_fd s) d w p q =
    guarded-Performed host (is_negative s) (close_fd s) host.posix d w refl p
clean_one-Performed host (clean_file_ptr f) d w p q =
    guarded-Performed host (f == null) (close_file f) host.stdc d w refl q
clean_one-Performed host (clean_free f) d w p q = elim (Bool-cases (f == null)) [
  | inl e ↦ rw e ((false, d), w, refl, (sym (append-nil d.actions), refl))
  | inr e ↦
      rw e ((false, record d { actions = d.actions ++ free_ptr f ∷ [] }), w, refl, (refl, refl))
]
clean_one-Performed host (clean_unmap f size) d w p q =
    guarded-Performed host ((f == null) || (size == 0)) (unmap_region f size) host.posix d w refl p
clean_one-Performed host (clean_unlink file) d w p q =
    guarded-Performed host false (unlink_file file) host.posix d w refl p

any_fails-append :
    (host : Host) (a b : List Action)
    → any_fails host (a ++ b) ≡ (any_fails host a || any_fails host b)
any_fails-append host [] b = refl
any_fails-append host (free_ptr x ∷ a) b = any_fails-append host a b
any_fails-append host (close_fd x ∷ a) b =
    ap (λ g. not (host.succeeds (close_fd x)) || g) (any_fails-append host a b)
    ∙ sym (or_assoc (not (host.succeeds (close_fd x))) (any_fails host a) (any_fails host b))
any_fails-append host (close_file x ∷ a) b =
    ap (λ g. not (host.succeeds (close_file x)) || g) (any_fails-append host a b)
    ∙ sym (or_assoc (not (host.succeeds (close_file x))) (any_fails host a) (any_fails host b))
any_fails-append host (unmap_region x y ∷ a) b =
    ap (λ g. not (host.succeeds (unmap_region x y)) || g) (any_fails-append host a b)
    ∙ sym (or_assoc (not (host.succeeds (unmap_region x y))) (any_fails host a) (any_fails host b))
any_fails-append host (unlink_file x ∷ a) b =
    ap (λ g. not (host.succeeds (unlink_file x)) || g) (any_fails-append host a b)
    ∙ sym (or_assoc (not (host.succeeds (unlink_file x))) (any_fails host a) (any_fails host b))

clean_loop-Performed :
    (host : Host) (calls : List CleanCall) (ret : Bool) (d : Desk) (w : World)
    → Adds host.posix
    → Adds host.stdc
    → Returns (clean_loop host calls ret d w) (λ (status, e) v.
      (e.actions ≡ d.actions ++ actions_of calls)
      × (status ≡ (ret || any_fails host (actions_of calls))))
unfolding clean_loop
clean_loop-Performed host [] ret d w p q =
    ((ret, d), w, refl, (sym (append-nil d.actions), or_false ret))
clean_loop-Performed host (c ∷ calls) ret d w p q =
    let ((status, e), v, r, (a, s)) = clean_one-Performed host c d w p q in
    let ((last, f), u, k, (b, t)) = clean_loop-Performed host calls (ret || status) e v p q in
    (
      (last, f),
      u,
      rw r k,
      (
        b
            ∙ ap (λ l. l ++ actions_of calls) a
            ∙ append_assoc d.actions (action_of c) (actions_of calls),
        t
            ∙ ap (λ g. (ret || g) || any_fails host (actions_of calls)) s
            ∙ or_assoc ret (any_fails host (action_of c)) (any_fails host (actions_of calls))
            ∙ ap (λ g. ret || g) (sym (any_fails-append host (action_of c) (actions_of calls))),
      ),
    )

-- Where the modules of errors return, a_clean_vargs returns, and whatever fails on the way it has made
-- every call of the system that its arguments stand for, once and in their order; it returns an error
-- when one of them failed, and only then.
pub clean_vargs-thorough :
    (host : Host) (calls : List CleanCall) (d : Desk) (w : World)
    → Adds host.posix
    → Adds host.stdc
    → Returns (a_clean_vargs host calls d w) (λ (status, e) v.
      (e.actions ≡ d.actions ++ actions_of calls) × (status ≡ any_fails host (actions_of calls)))
unfolding a_clean_vargs
clean_vargs-thorough host calls d w p q = clean_loop-Performed host calls false d w p q
