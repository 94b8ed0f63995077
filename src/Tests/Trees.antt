-- ===== src/Tests/Trees.antt =====
-- The tree of a/bintree.c, at a tree of three words that owns its keys.
use alib4c.Common.{ℕ, ◌≡◌, true, none, List, [], ◌∷◌, refl, arith}
use alib4c.World.{Ptr, Returns}
use alib4c.Bintree.Client.{Request, put_it, get_it, remove_it, serve, Serves, serve-Serves}
use alib4c.Bintree.{leaf, node, Bintree, a_bintree_put, a_bintree_get, a_bintree_remove}
use alib4c.Bintree.Lookup.{update}
use alib4c.Bintree.Methods.{
  IsValid, Puts, view, ledger, node_ledger, a_bintree_put-Puts, remove-get, remove-ledger,
}
use alib4c.Tests.Samples.{ready, exhausted, word_cmp, word-IsOrder}

-- a node sends the greater keys to the left
abbrev three : Bintree
three = record {
  root = node (node leaf 7 70 leaf) 5 50 (node leaf 3 30 leaf);
  key_cmp = word_cmp;
  key_free = true;
  val_free = true;
}

three-IsValid : IsValid three
three-IsValid = record { order = word-IsOrder; ordered = ground arith }

a_bintree_put-Puts_example :
    Returns (a_bintree_put three 5 55 exhausted) (Puts three 5 55 exhausted)
a_bintree_put-Puts_example = a_bintree_put-Puts three 5 55 exhausted three-IsValid tt

remove-get_example :
    let (x, t', w') = a_bintree_remove three 5 ready in
    (x ≡ a_bintree_get three 5)
    × IsValid t'
    × ((q : Ptr) → view t' q ≡ update word_cmp (view three) 5 none q)
remove-get_example = remove-get three 5 ready three-IsValid

remove-ledger_example :
    let (x, t', w') = a_bintree_remove three 5 ready in
    ((f : Ptr → ℕ) → ledger f t' w' ≡ ledger f three ready)
    × (node_ledger t' w' ≡ node_ledger three ready)
remove-ledger_example = remove-ledger three 5 ready three-IsValid refl

-- a put and a remove of a key, with a read of it before and after
abbrev requests : List Request
requests = put_it 5 55 ∷ get_it 5 ∷ remove_it 5 ∷ get_it 5 ∷ []

serve-Serves_example : Returns (serve requests three ready) (Serves word_cmp (view three) requests)
serve-Serves_example =
    serve-Serves requests word_cmp (view three) three ready three-IsValid tt refl (λ q. refl)
