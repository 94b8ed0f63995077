-- ===== src/Socket/Opening.antt =====
-- What the helpers of a/to_do/socket.c connect to and listen on.
use alib4c.Common.{ℕ, ◌≡◌, ◌⊎◌, Option, none, some, List, [], ◌∷◌}
use alib4c.Socket.{Call, Answers, Result}

-- The calls are those of a list from the front, up to the first that fails: then there is no result, and
-- else there is one when the list is at its end.
unfoldable pub Follows : Answers → List Call → Option ℕ → Result → Type 0
Follows answers [] res (r, calls) = (r ≡ res) × (calls ≡ [])
Follows answers (c ∷ cs) res (r, calls) =
    ((answers c ≡ none) × (r ≡ none) × (calls ≡ c ∷ []))
    ⊎ ((n : ℕ) × (more : List Call) × (answers c ≡ some n)
        × (calls ≡ c ∷ more)
        × Follows answers cs res (r, more))
