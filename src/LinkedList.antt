-- ===== src/LinkedList.antt =====
-- The intrusive list of a/list.c. An item holds an `a_list_item_t` at the list's offset, so the memory
-- that matters is the `ptr` field at each address. `none` is a fault: a write or a read through NULL.
pub mod Client
pub mod Links
pub mod Queue
pub mod Stack
use alib4c.Common.{ℕ, zero, suc, ◌+◌, ◌-◌, ◌%◌, ◌^◌, Option, none, some, ◌==◌, if◌then◌else◌}
use alib4c.World.{Ptr, null}

-- `((a_list_item_t *)p)->ptr`
abbrev pub Memory : Type 0
Memory = Ptr → Ptr

unfoldable pub write : Memory → Ptr → Ptr → Memory
write m a v p = if p == a then v else m p

pub record Handle : Type 0 where
  pub head : Ptr
  pub tail : Ptr
  pub offset : ℕ
  pub count : ℕ

-- item2list_item and list_item2item
abbrev pub to_link : Handle → Ptr → Ptr
to_link l item = item + l.offset

abbrev pub to_item : Handle → Ptr → Ptr
to_item l li = li - l.offset

-- `p->ptr = v`
store : Memory → Ptr → Ptr → Option Memory
store m p v = if p == null then none else some (write m p v)

unfoldable pub a_list_init : ℕ → Handle
a_list_init offset = record { head = null; tail = null; offset = offset; count = 0 }

-- `list->count++` on an `unsigned int`
abbrev pub counted : Handle → ℕ
counted l = (l.count + 1) % 2 ^ 32

linked : Memory → Handle → Ptr → Option (Memory × Handle × ℕ)
linked m l li = some (m, record l { tail = li; count = counted l }, counted l)

-- The list's new state, the memory, and the count that is returned.
unfoldable pub a_list_append : Memory → Handle → Ptr → Option (Memory × Handle × ℕ)
unfolding store linked
a_list_append m l item =
    let li = to_link l item in
    elim (store m li null) [
      | none ↦ none
      | some m₁ ↦
          if l.count == 0
          then linked m₁ (record l { head = li }) li
          else (elim (store m₁ l.tail li) [ none ↦ none | some m₂ ↦ linked m₂ l li ])
    ]

unfoldable pub a_list_prepend : Memory → Handle → Ptr → Option (Memory × Handle × ℕ)
unfolding store
a_list_prepend m l item =
    let li = to_link l item in
    elim (store m li l.head) [
      | none ↦ none
      | some m₁ ↦ some (m₁, record l { head = li; count = counted l }, counted l)
    ]

-- The `switch` on the count, with `list->count--` behind it.
decap_count : Memory → Handle → ℕ → Option (Ptr × Handle)
decap_count m l zero = some (null, l)
decap_count m l (suc zero) =
    some (to_item l l.head, record l { head = null; tail = null; count = 0 })
decap_count m l (suc (suc n)) =
    if l.head == null
    then none
    else some (to_item l l.head, record l { head = m l.head; count = suc n })

unfoldable pub a_list_decap : Memory → Handle → Option (Ptr × Handle)
unfolding decap_count
a_list_decap m l = decap_count m l l.count
