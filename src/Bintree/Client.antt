-- ===== src/Bintree/Client.antt =====
-- A user of the tree of a/bintree.h: a sequence of calls, and what it reads of them.
use alib4c.Common.{
  ◌≡◌, refl, ap, ◌∙◌, ℤ, Option, none, some, List, [], ◌∷◌, Bool, true, false, if◌then◌else◌, Sign,
  neg, nil, plus, sign,
}
use alib4c.World.{Ptr, World, M, ok, ◌>>=◌, pure, Returns, head_or_false}
use alib4c.Error.{success, other}
use alib4c.Error.Live.{IsLive}
use alib4c.Collect.{Cmp}
use alib4c.Bintree.{Bintree, a_bintree_put, a_bintree_get, a_bintree_remove}
use alib4c.Bintree.Lookup.{or_null, update, node_get-find}
use alib4c.Bintree.Ledger.{errors-node_remove}
use alib4c.Bintree.Methods.{IsValid, view, a_bintree_put-Puts, remove-get}

pub data Request : Type 0 where
  put_it : Ptr → Ptr → Request
  get_it : Ptr → Request
  remove_it : Ptr → Request

pub data Reply : Type 0 where
  code : ℤ → Reply
  value : Ptr → Reply

abbrev pub Replies : Type 0
Replies = List Reply

-- the replies of a sequence of calls, and the tree that is left
abbrev pub serve : List Request → Bintree → M (Replies × Bintree)
serve [] t w = ok ([], t) w
serve (put_it k v ∷ rs) t w =
    (a_bintree_put t k v >>= λ (c, t'). serve rs t' >>= λ (l, u). pure (code c ∷ l, u)) w
serve (get_it k ∷ rs) t w = (serve rs t >>= λ (l, u). pure (value (a_bintree_get t k) ∷ l, u)) w
serve (remove_it k ∷ rs) t w =
    let (x, t', w') = a_bintree_remove t k w in (serve rs t' >>= λ (l, u). pure (value x ∷ l, u)) w'

-- The replies are those of a map: a put that succeeds changes it and one that fails does not, and a get
-- and a remove read it.
abbrev pub Agrees : Cmp → (Ptr → Option Ptr) → List Request → Replies → Type 0
Agrees cmp m [] l = l ≡ []
Agrees cmp m (put_it k v ∷ rs) l =
    (done : Bool) × (more : Replies) × (l ≡ code (if done then success else other) ∷ more)
    × Agrees cmp (λ q. if done then update cmp m k (some v) q else m q) rs more
Agrees cmp m (get_it k ∷ rs) l =
    (more : Replies) × (l ≡ value (or_null (m k)) ∷ more) × Agrees cmp m rs more
Agrees cmp m (remove_it k ∷ rs) l =
    (more : Replies) × (l ≡ value (or_null (m k)) ∷ more) × Agrees cmp (update cmp m k none) rs more

update-cong :
    (cmp : Cmp) (f g : Ptr → Option Ptr) (k q : Ptr) (x : Option Ptr)
    → f q ≡ g q
    → update cmp f k x q ≡ update cmp g k x q
update-cong cmp f g k q x e = go (sign (cmp k q))
  where
    go : (s : Sign) → (elim s [ nil ↦ x | _ ↦ f q ]) ≡ (elim s [ nil ↦ x | _ ↦ g q ])
    go nil = refl
    go neg = e
    go plus = e

get-map :
    (t : Bintree) (m : Ptr → Option Ptr) (k : Ptr)
    → view t k ≡ m k
    → a_bintree_get t k ≡ or_null (m k)
unfolding a_bintree_get
get-map t m k e = node_get-find t t.root k ∙ ap or_null e

errors-removed : (t : Bintree) (k : Ptr) (w : World) → (a_bintree_remove t k w).2.errors ≡ w.errors
unfolding a_bintree_remove
errors-removed t k w = errors-node_remove t t.root k w

cmp-removed : (t : Bintree) (k : Ptr) (w : World) → (a_bintree_remove t k w).1.key_cmp ≡ t.key_cmp
unfolding a_bintree_remove
cmp-removed t k w = refl

-- what a run leaves: a valid tree, a live stack, replies that agree
abbrev pub Serves : Cmp → (Ptr → Option Ptr) → List Request → Replies × Bintree → World → Type 0
Serves cmp m rs (l, u) v = Agrees cmp m rs l × IsValid u × IsLive v.errors

-- Whichever calls of malloc answer, a sequence of puts, gets and removes on a valid tree and a live error
-- stack returns, and its replies are those of the map that the tree stands for: each put that reports
-- success changes the map, one that reports A_ERROR_OTHER leaves it, and a get or a remove gives the
-- value under its key, or NULL. It leaves a valid tree and a live stack.
pub serve-Serves :
    (rs : List Request) (cmp : Cmp) (m : Ptr → Option Ptr) (t : Bintree) (w : World)
    → IsValid t
    → IsLive w.errors
    → t.key_cmp ≡ cmp
    → ((q : Ptr) → view t q ≡ m q)
    → Returns (serve rs t w) (Serves cmp m rs)
serve-Serves [] cmp m t w valid live c h = (([], t), w, refl, (refl, valid, live))
serve-Serves (get_it k ∷ rs) cmp m t w valid live c h =
    let ((l, u), v, run, (agrees, ok_tree, alive)) = serve-Serves rs cmp m t w valid live c h in
    (
      (value (a_bintree_get t k) ∷ l, u),
      v,
      rw run refl,
      ((l, ap (λ x. value x ∷ l) (get-map t m k (h k)), agrees), ok_tree, alive),
    )
serve-Serves (remove_it k ∷ rs) cmp m t w valid live c h =
    let (x, t', w') = a_bintree_remove t k w in
    let (got, valid', reads) = remove-get t k w valid in
    let ((l, u), v, run, (agrees, ok_tree, alive)) =
      serve-Serves rs cmp (update cmp m k none) t' w' valid' (rw (errors-removed t k w) live)
        (cmp-removed t k w ∙ c)
        (λ q.
          reads q
          ∙ ap (λ d. update d (view t) k none q) c
          ∙ update-cong cmp (view t) m k q none (h q)) in
    (
      (value x ∷ l, u),
      v,
      rw run refl,
      ((l, ap (λ y. value y ∷ l) (got ∙ get-map t m k (h k)), agrees), ok_tree, alive),
    )
serve-Serves (put_it k x ∷ rs) cmp m t w valid live c h =
    let ((r, t'), w', put_run, p) = a_bintree_put-Puts t k x w valid live in
    let done = head_or_false w.mallocs in
    let ((l, u), v, run, (agrees, ok_tree, alive)) =
      serve-Serves rs cmp (λ q. if done then update cmp m k (some x) q else m q) t' w' p.valid
        p.live (p.same_cmp ∙ c)
        (λ q.
          p.reads q
          ∙ either done
              (ap (λ d. update d (view t) k (some x) q) c
                ∙ update-cong cmp (view t) m k q (some x) (h q))
              (h q)) in
    (
      (code r ∷ l, u),
      v,
      rw (put_run, run) refl,
      ((done, l, ap (λ y. code y ∷ l) p.code, agrees), ok_tree, alive),
    )
  where
    either :
        {A : Type 0} (b : Bool) {y y' z z' : A}
        → y ≡ y'
        → z ≡ z'
        → (if b then y else z) ≡ (if b then y' else z')
    either true e f = e
    either false e f = f
