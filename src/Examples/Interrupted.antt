-- ===== src/Examples/Interrupted.antt =====
-- The revert of a rollback on a device whose user directories cannot be read.
use system_apex.Base.{true, some, [], ◌∷◌, ◌≡◌, refl, abort, error, find}
use system_apex.FileSystem.{path_exists, delete_dir_content, remove_below, is_below, rename_dir}
use system_apex.Session.State.{SessionState, ApexSession}
use system_apex.Session.Manager.{parse_all}
use system_apex.Daemon.{Apexd, Host}
use system_apex.Daemon.Backup.{restore_active_packages}
use system_apex.Daemon.Resume.{reverting}
use system_apex.Daemon.Revert.{revert_active_sessions}
use system_apex.Daemon.Interrupted.{revert_active_sessions_aborts}
use system_apex.Examples.Daemons.{host, daemon}
use system_apex.Examples.Sessions.{activated_state}

abbrev unreadable_host : Host
unreadable_host = record host { de_user_dirs = error "Failed to open /data/misc_de" }

abbrev rollback_state : SessionState
rollback_state = record activated_state { is_rollback = true }

abbrev rollback_daemon : Apexd
rollback_daemon = record daemon { sessions = ("/s/1", some rollback_state) ∷ [] }

abbrev rollback_session : ApexSession
rollback_session = record { message = rollback_state; session_dir = "/s/1" }

revert_active_sessions_aborts_example :
    ((revert_active_sessions unreadable_host "zygote" "" rollback_daemon).0 ≡ abort)
    × (reverting (
          find
            (revert_active_sessions unreadable_host "zygote" "" rollback_daemon).1.sessions
            "/s/1")
        ≡ true)
unfolding parse_all restore_active_packages path_exists delete_dir_content remove_below is_below
    rename_dir find
revert_active_sessions_aborts_example =
    revert_active_sessions_aborts unreadable_host "zygote" "" rollback_daemon rollback_session []
      refl (λ dir m. refl) (refl, tt) refl refl refl refl refl
