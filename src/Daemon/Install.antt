-- ===== src/Daemon/Install.antt =====
-- su_daemon_install and su_daemon_uninstall of a/to_do/daemon.c, as they are built on Windows: the calls
-- in their order. On Unix both report that they are not implemented.
use alib4c.Common.{ℕ, ◌≡◌, refl, Bool, not, List, [], ◌∷◌}
use alib4c.Attempts.{
  Outcome, all_done, always, one_if, one_lem, zero_lem, weigh, attempt, all_succeed, attempt-failed,
  Balanced, attempt-Balanced, plain-Balanced, all_done-Balanced, freeing-Balanced, Balanced-weigh,
}

-- The calls of the service manager, of the paths and of the log; each answers whether it succeeds.
pub data ScmCall : Type 0 where
  get_full_path get_bare_name open_manager create_service open_service delete_service : ScmCall
  free_full_path free_bare_name close_service close_manager log_install log_uninstall : ScmCall

-- the calls whose answers each of the two looks at
abbrev pub install_calls : List ScmCall
install_calls =
    get_full_path ∷ get_bare_name ∷ open_manager ∷ create_service ∷ close_service ∷ close_manager
    ∷ log_install ∷ []

abbrev pub uninstall_calls : List ScmCall
uninstall_calls =
    get_bare_name ∷ open_manager ∷ open_service ∷ delete_service ∷ close_service ∷ close_manager
    ∷ log_uninstall ∷ []

module _ (succeeds : ScmCall → Bool) where
  unfoldable pub su_daemon_install : Outcome ScmCall
  su_daemon_install = attempt succeeds get_full_path [] (
      attempt succeeds get_bare_name (free_full_path ∷ []) (
        attempt succeeds open_manager (free_full_path ∷ free_bare_name ∷ []) (
          attempt succeeds create_service (free_full_path ∷ free_bare_name ∷ []) (
            always free_full_path (
              always free_bare_name (
                attempt succeeds close_service [] (
                  attempt succeeds close_manager []
                    (attempt succeeds log_install [] all_done))))))))

  unfoldable pub su_daemon_uninstall : Outcome ScmCall
  su_daemon_uninstall = attempt succeeds get_bare_name [] (
      attempt succeeds open_manager (free_bare_name ∷ []) (
        attempt succeeds open_service (free_bare_name ∷ []) (
          always free_bare_name (
            attempt succeeds delete_service [] (
              attempt succeeds close_service [] (
                attempt succeeds close_manager [] (attempt succeeds log_uninstall [] all_done)))))))

  -- the texts that a call gives
  abbrev gives : ScmCall → ℕ
  gives get_full_path = one_if (succeeds get_full_path)
  gives get_bare_name = one_if (succeeds get_bare_name)
  gives _ = 0

  abbrev takes : ScmCall → ℕ
  takes free_full_path = 1
  takes free_bare_name = 1
  takes _ = 0

  -- The texts that it is given are freed, and it fails when one of the calls does.
  abbrev pub Settles : List ScmCall → Outcome ScmCall → Type 0
  Settles cs o =
      (weigh gives o.calls ≡ weigh takes o.calls) × (o.failed ≡ not (all_succeed succeeds cs))

  install-Balanced : Balanced succeeds gives takes 0 su_daemon_install
  unfolding su_daemon_install
  install-Balanced =
      attempt-Balanced succeeds gives takes get_full_path 1 _ 0 _ refl (one_lem _) (zero_lem _) refl
        (attempt-Balanced succeeds gives takes get_bare_name 1 _ _ _ refl (one_lem _) (zero_lem _)
          refl
          (plain-Balanced succeeds gives takes open_manager _ 2 _ refl refl refl (
            plain-Balanced succeeds gives takes create_service _ 2 _ refl refl refl (
              freeing-Balanced succeeds gives takes free_full_path 1 _ refl refl (
                freeing-Balanced succeeds gives takes free_bare_name 0 _ refl refl (
                  plain-Balanced succeeds gives takes close_service [] 0 _ refl refl refl (
                    plain-Balanced succeeds gives takes close_manager [] 0 _ refl refl refl (
                      plain-Balanced succeeds gives takes log_install [] 0 _ refl refl refl
                        (all_done-Balanced succeeds gives takes)))))))))

  uninstall-Balanced : Balanced succeeds gives takes 0 su_daemon_uninstall
  unfolding su_daemon_uninstall
  uninstall-Balanced =
      attempt-Balanced succeeds gives takes get_bare_name 1 _ 0 _ refl (one_lem _) (zero_lem _) refl
        (plain-Balanced succeeds gives takes open_manager _ 1 _ refl refl refl (
          plain-Balanced succeeds gives takes open_service _ 1 _ refl refl refl (
            freeing-Balanced succeeds gives takes free_bare_name 0 _ refl refl (
              plain-Balanced succeeds gives takes delete_service [] 0 _ refl refl refl (
                plain-Balanced succeeds gives takes close_service [] 0 _ refl refl refl (
                  plain-Balanced succeeds gives takes close_manager [] 0 _ refl refl refl (
                    plain-Balanced succeeds gives takes log_uninstall [] 0 _ refl refl refl
                      (all_done-Balanced succeeds gives takes))))))))

  install-failed : su_daemon_install.failed ≡ not (all_succeed succeeds install_calls)
  unfolding su_daemon_install always all_done
  install-failed = attempt-failed succeeds get_full_path _ _ _ (
      attempt-failed succeeds get_bare_name _ _ _ (
        attempt-failed succeeds open_manager _ _ _ (
          attempt-failed succeeds create_service _ _ _ (
            attempt-failed succeeds close_service [] _ _ (
              attempt-failed succeeds close_manager [] _ _
                (attempt-failed succeeds log_install [] _ _ refl))))))

  uninstall-failed : su_daemon_uninstall.failed ≡ not (all_succeed succeeds uninstall_calls)
  unfolding su_daemon_uninstall always all_done
  uninstall-failed = attempt-failed succeeds get_bare_name _ _ _ (
      attempt-failed succeeds open_manager _ _ _ (
        attempt-failed succeeds open_service _ _ _ (
          attempt-failed succeeds delete_service [] _ _ (
            attempt-failed succeeds close_service [] _ _ (
              attempt-failed succeeds close_manager [] _ _
                (attempt-failed succeeds log_uninstall [] _ _ refl))))))

  -- Whichever of their calls succeed, su_daemon_install and su_daemon_uninstall give back all the texts
  -- that they were given, and they fail exactly when one of their calls does.
  pub installers-Settle :
      Settles install_calls su_daemon_install × Settles uninstall_calls su_daemon_uninstall
  installers-Settle = (
    (Balanced-weigh succeeds gives takes _ install-Balanced, install-failed),
    (Balanced-weigh succeeds gives takes _ uninstall-Balanced, uninstall-failed),
  )
