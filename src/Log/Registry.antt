-- ===== src/Log/Registry.antt =====
-- a_log_install and a_log_uninstall of a/to_do/log.c, as they are built on Windows: the calls in their
-- order. alloca is taken to succeed, as it has no way to fail.
use alib4c.Common.{ℕ, ◌≡◌, Bool, true, not, List, [], ◌∷◌}
use alib4c.Attempts.{Outcome, all_done, always, one_if, weigh, attempt, all_succeed, Balanced}

-- The values below the key of the program.
pub data Value : Type 0 where
  event_message_file category_message_file types_supported category_count : Value

-- The calls of a_barename, of a_free, and of the registry, for the key of the program and for the key of
-- the event log.
pub data RegCall : Type 0 where
  get_barename free_barename create_key open_key open_parent : RegCall
  delete_key close_key close_parent : RegCall
  set_value : Value → RegCall
  delete_value : Value → RegCall

module _ (succeeds : RegCall → Bool) where
  abbrev try : RegCall → List RegCall → Outcome RegCall → Outcome RegCall
  try = attempt succeeds

  unfoldable pub a_log_install : Outcome RegCall
  a_log_install = try get_barename [] (
      always free_barename (
        try create_key [] (
          try (set_value event_message_file) [] (
            try (set_value category_message_file) [] (
              try (set_value types_supported) []
                (try (set_value category_count) [] (try close_key [] all_done)))))))

  -- `back` are the calls of return_flail("v;f;p", ..., barename), which none of the sources defines.
  unfoldable pub a_log_uninstall : List RegCall → Outcome RegCall
  a_log_uninstall back = try get_barename [] (
      try open_key back (
        try (delete_value event_message_file) back (
          try (delete_value category_message_file) back (
            try (delete_value types_supported) back (
              try (delete_value category_count) back (
                try close_key back (
                  try open_parent back (
                    try delete_key back
                      (always free_barename (try close_parent [] all_done))))))))))

  -- the texts that a call gives, and those that it frees
  abbrev pub gives : RegCall → ℕ
  gives get_barename = one_if (succeeds get_barename)
  gives _ = 0

abbrev pub takes : RegCall → ℕ
takes free_barename = 1
takes _ = 0

abbrev pub install_calls : List RegCall
install_calls =
    get_barename
    ∷ create_key
    ∷ set_value event_message_file
    ∷ set_value category_message_file
    ∷ set_value types_supported
    ∷ set_value category_count
    ∷ close_key
    ∷ []

abbrev pub uninstall_calls : List RegCall
uninstall_calls =
    get_barename
    ∷ open_key
    ∷ delete_value event_message_file
    ∷ delete_value category_message_file
    ∷ delete_value types_supported
    ∷ delete_value category_count
    ∷ close_key
    ∷ open_parent
    ∷ delete_key
    ∷ close_parent
    ∷ []

-- the values that some calls set, and those that they delete
abbrev pub values_set : List RegCall → List Value
values_set [] = []
values_set (set_value v ∷ cs) = v ∷ values_set cs
values_set (_ ∷ cs) = values_set cs

abbrev pub values_deleted : List RegCall → List Value
values_deleted [] = []
values_deleted (delete_value v ∷ cs) = v ∷ values_deleted cs
values_deleted (_ ∷ cs) = values_deleted cs

module _ (succeeds : RegCall → Bool) where
  -- The name of the program is freed once, and an error means that a call has failed.
  abbrev pub Settles : List RegCall → Outcome RegCall → Type 0
  Settles cs o =
      (weigh (gives succeeds) o.calls ≡ weigh takes o.calls)
      × (o.failed ≡ not (all_succeed succeeds cs))

  abbrev InHand : ℕ → Outcome RegCall → Type 0
  InHand k o = Balanced succeeds (gives succeeds) takes k o

  -- what is set and what is deleted where nothing fails
  abbrev pub Undoes : Type 0
  Undoes =
      ((c : RegCall) → succeeds c ≡ true)
      → (back : List RegCall)
      → values_set (a_log_install succeeds).calls
        ≡ values_deleted (a_log_uninstall succeeds back).calls
