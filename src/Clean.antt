-- ===== src/Clean.antt =====
-- The cleanup calls of a/old/clean.c, as they are built on Unix with close, mmap and unlink.
pub mod Thorough
use alib4c.Common.{
  ℕ, zero, suc, ℤ, pos, negsuc, Bool, true, false, ◌||◌, Option, none, some, List, [], ◌∷◌, ◌++◌,
  ◌==◌, if◌then◌else◌,
}
use alib4c.World.{Ptr, null, World, M, ok, ◌>>=◌, pure}
use alib4c.Trace.{Module, Trace, a_error_add_vargs}

-- A module of a_clean_real with what it reads from the variable arguments.
pub data CleanCall : Type 0 where
  clean_socket : ℤ → CleanCall
  clean_fd : ℤ → CleanCall
  clean_file_ptr : Ptr → CleanCall
  clean_free : Ptr → CleanCall
  clean_unmap : Ptr → ℕ → CleanCall
  clean_unlink : List ℕ → CleanCall

-- a call of the system
pub data Action : Type 0 where
  close_fd : ℤ → Action
  close_file : Ptr → Action
  free_ptr : Ptr → Action
  unmap_region : Ptr → ℕ → Action
  unlink_file : List ℕ → Action

-- What the calls of the system have been, the latest last, and the errors of a/old/error.c.
pub record Desk : Type 0 where
  pub actions : List Action
  pub trace : Trace

-- `succeeds` says which calls of the system return 0; `posix` and `stdc` are the modules of errors.
pub record Host : Type 0 where
  pub succeeds : Action → Bool
  pub posix : Module
  pub stdc : Module

abbrev pub is_negative : ℤ → Bool
is_negative (pos n) = false
is_negative (negsuc n) = true

module _ (host : Host) where
  -- a call of the system; when it fails, a_error_add_m and A_STATUS_ERROR, which is true
  unfoldable pub perform : Action → Module → Desk → M (Bool × Desk)
  perform action errors d w =
      let done = record d { actions = d.actions ++ action ∷ [] } in
      if host.succeeds action
      then ok (false, done) w
      else (a_error_add_vargs d.trace ((errors, 0) ∷ []) >>= λ t.
            pure (true, record done { trace = t }))
          w

  unfoldable pub clean_one : CleanCall → Desk → M (Bool × Desk)
  clean_one (clean_socket s) d w =
      if is_negative s then ok (false, d) w else perform (close_fd s) host.posix d w
  clean_one (clean_fd fd) d w =
      if is_negative fd then ok (false, d) w else perform (close_fd fd) host.posix d w
  clean_one (clean_file_ptr p) d w =
      if p == null then ok (false, d) w else perform (close_file p) host.stdc d w
  clean_one (clean_free p) d w =
      ok (false, (if p == null then d else record d { actions = d.actions ++ free_ptr p ∷ [] })) w
  clean_one (clean_unmap p size) d w =
      if (p == null) || (size == 0)
      then ok (false, d) w
      else perform (unmap_region p size) host.posix d w
  clean_one (clean_unlink file) d w = perform (unlink_file file) host.posix d w

  unfoldable pub clean_loop : List CleanCall → Bool → Desk → M (Bool × Desk)
  clean_loop [] ret d w = ok (ret, d) w
  clean_loop (c ∷ calls) ret d w =
      (clean_one c d >>= λ (status, e). clean_loop calls (ret || status) e) w

  -- a_clean_real is the same on variable arguments.
  unfoldable pub a_clean_vargs : List CleanCall → Desk → M (Bool × Desk)
  a_clean_vargs calls d w = clean_loop calls false d w
