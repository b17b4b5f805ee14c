-- ===== src/Daemon/Submitted.antt =====
-- What a submitted session reads as afterwards.
use system_apex.Base.{
  ℕ, String, false, ◌&&◌, List, [], ◌∷◌, ◌++◌, Result, ok, if◌then◌else◌, map, ◌≡◌, refl, sym, ap,
  ◌∙◌, arith, eq_refl, Result-cases, Bool-cases, inl, inr, nat_eq, is_empty,
}
use system_apex.ApexFile.{ApexFile}
use system_apex.FileSystem.{FileSystem}
use system_apex.Daemon.Backup.{backup_active_packages}
use system_apex.Session.State.{State, ApexSession, new_state, set_state, add_apex_name}
use system_apex.Session.Manager.{
  get_session, create_session, update_state_and_commit, session_dir_path,
}
use system_apex.Session.Persistence.{get_session_from_dir-commit}
use system_apex.Daemon.{Apexd, Host}
use system_apex.Daemon.Sessions.{commit}
use system_apex.Daemon.Verify.{Verifier}
use system_apex.Daemon.Submit.{
  Submission, add_apex_names, fill_in, record_session, submit_staged_session, verify_session_dirs,
}

-- The session that was submitted with these packages.
abbrev pub submitted : Host → Submission → List ApexFile → ApexSession
submitted host sub apexes = record {
  message = record {
    id = sub.session_id;
    state = State.verified;
    child_session_ids = sub.child_session_ids;
    expected_build_fingerprint = host.build_fingerprint;
    rollback_enabled = sub.has_rollback_enabled;
    is_rollback = sub.is_rollback;
    rollback_id = sub.rollback_id;
    crashing_native_process = "";
    apex_names = map (λ (a : ApexFile). a.name) apexes;
    error_message = "";
  };
  session_dir = session_dir_path host.session_manager.sessions_base_dir sub.session_id;
}

++_assoc_cons :
    {A : Type 0} (xs : List A) (y : A) (zs : List A) → (xs ++ y ∷ []) ++ zs ≡ xs ++ y ∷ zs
++_assoc_cons [] y zs = refl
++_assoc_cons (x ∷ xs) y zs = ap (λ l. x ∷ l) (++_assoc_cons xs y zs)

++-[] : {A : Type 0} (xs : List A) → xs ++ [] ≡ xs
++-[] [] = refl
++-[] (x ∷ xs) = ap (λ l. x ∷ l) (++-[] xs)

with_names : ApexSession → List String → ApexSession
with_names s names = record s { message = record s.message { apex_names = names } }

add_apex_names-with_names :
    (apexes : List ApexFile) (s : ApexSession)
    → add_apex_names apexes s ≡ with_names s (s.apex_names ++ map (λ (a : ApexFile). a.name) apexes)
unfolding add_apex_names with_names
add_apex_names-with_names [] s = ap (with_names s) (sym (++-[] s.apex_names))
add_apex_names-with_names (a ∷ as') s =
    add_apex_names-with_names as' (add_apex_name s a.name)
    ∙ ap (with_names s) (++_assoc_cons s.apex_names a.name (map (λ (b : ApexFile). b.name) as'))

abbrev fresh : Host → Submission → ApexSession
fresh host sub = record {
  message = new_state sub.session_id;
  session_dir = session_dir_path host.session_manager.sessions_base_dir sub.session_id;
}

fill_in-submitted :
    (host : Host) (sub : Submission) (apexes : List ApexFile)
    → set_state (fill_in host sub apexes (fresh host sub)) State.verified
      ≡ submitted host sub apexes
unfolding fill_in with_names
fill_in-submitted host sub apexes =
    ap (λ x. set_state x State.verified) (add_apex_names-with_names apexes _)

record_session-reads :
    (host : Host) (sub : Submission) (found apexes : List ApexFile) (d : Apexd)
    → (record_session host sub found d).0 ≡ ok apexes
    → (found ≡ apexes)
      × (get_session host.session_manager
            (record_session host sub found d).1.sessions
            sub.session_id
          ≡ ok (submitted host sub found))
unfolding record_session commit get_session create_session
record_session-reads host sub found apexes d h =
    let made = create_session host.session_io host.session_manager d.sessions sub.session_id in
    let dir = session_dir_path host.session_manager.sessions_base_dir sub.session_id in
    let s' = fill_in host sub found (fresh host sub) in
    let lies : s'.session_dir ≡ dir =
      ap (λ (x : ApexSession). x.session_dir) (fill_in-submitted host sub found) in
    let read = get_session_from_dir-commit host.session_io s' State.verified made.1 dir in
    elim (Result-cases (update_state_and_commit host.session_io s' State.verified made.1).0) [
      | inr bad ↦ absurd (grind (arith, bad, h))
      | inl (_, good) ↦
          grind (arith, good, h, lies, eq_refl dir, read, fill_in-submitted host sub found)
    ]

-- Where the submission of a session succeeds, its identifier is not 0, it is not at once a
-- rollback and enabled for one, and it reads back from the disk as verified, with what was
-- submitted, the fingerprint of the build and the names of just the packages that are returned.
pub submit_staged_session-reads :
    (host : Host) (v : Verifier) (sub : Submission) (apexes : List ApexFile) (d : Apexd)
    → (submit_staged_session host v sub d).0 ≡ ok apexes
    → (nat_eq sub.session_id 0 ≡ false)
      × ((sub.has_rollback_enabled && sub.is_rollback) ≡ false)
      × (get_session host.session_manager
            (submit_staged_session host v sub d).1.sessions
            sub.session_id
          ≡ ok (submitted host sub apexes))
unfolding submit_staged_session
submit_staged_session-reads host v sub apexes d h =
    let backed_up : Result (Unit {0}) × FileSystem =
      if host.supports_fs_checkpoints then (ok tt, d.fs) else backup_active_packages host d.fs in
    let d₁ : Apexd = record d { fs = backed_up.1 } in
    let ids : List ℕ =
      if is_empty sub.child_session_ids then sub.session_id ∷ [] else sub.child_session_ids in
    elim (Bool-cases (nat_eq sub.session_id 0)) [
      | inl zero_id ↦ absurd (grind (arith, zero_id, h))
      | inr given ↦ (elim (Result-cases backed_up.0) [
        | inr bad ↦ absurd (grind (arith, given, bad, h))
        | inl (_, good) ↦ (elim (Result-cases (verify_session_dirs host v d₁.fs ids)) [
          | inr bad ↦ absurd (grind (arith, given, good, bad, h))
          | inl (found, verified) ↦
              (elim (Bool-cases (sub.has_rollback_enabled && sub.is_rollback)) [
                | inl both ↦ absurd (grind (arith, given, good, verified, both, h))
                | inr one ↦
                    let reads = record_session-reads host sub found apexes d₁ in
                    grind (arith, given, good, verified, one, h, reads)
              ])
        ])
      ])
    ]
