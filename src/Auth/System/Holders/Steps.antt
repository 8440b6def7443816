-- ===== src/Auth/System/Holders/Steps.antt =====
-- `AuthState`: who holds the lock and the gates after each step of a login.
use resocks.Base.{
  ℕ, ◌<◌, ◌≡◌, refl, sym, ap, ◌∙◌, subst, inl, inr, Bool, false, Option, none, some, List, length,
  get_elem?-total, Bool-cases, Option-cases,
}
use resocks.Auth.Login.Invariant.{IsIndexed}
use resocks.Auth.Login.Cases.{
  if_free-cases, enter-cases, prepare-cases, read_hash-cases, hash_claim-cases, recheck-cases,
  take_hashing-cases, admit-cases, verify-cases,
}
use resocks.Auth.Login.Steps.{Phases}
use resocks.Auth.Login.{
  ClaimWork, Phase, entered, queued, preparing, missed, hashing, hashed, gated, admitted,
  committing, stat, persisting, publishing, caching, rearming, adopting, reverifying, verifying,
  done, panicked, Login, World, enter, take_hashing, prepare, read_hash, hash_claim, check_hashed,
  pass_gate, admit, take_lock, take_snapshot, persist, verify_against_committed, advance, recheck,
  after_persist, release_claim,
}
use resocks.Auth.Persist.{Disk, Answers, ClaimPersist, written, disk_hash_changed, failed}
use resocks.Auth.State.{User, UserEntry, init_hash, hash_at}
use resocks.Auth.System.Safe.{holds_lock}
use resocks.Auth.System.{drop_future}
use resocks.Rust.Collections.{lookup, lookup-insert_entry}
use resocks.Rust.Text.{Bytes, bytes_eq, bytes_eq_sound}
-- The account whose gate the login holds.
use resocks.Auth.System.Holders.{gate_of, Hands, same-Hands, quiet-Hands, leaves-Hands}

module _ (argon2_verify : Bytes → Bytes → Bool) (hash_password : Bytes → Bytes → Option Bytes)
    (hmac : Bytes → Bytes → Bytes) where
  module _ (i : ℕ) (s : World) (l : Login) where
    enter-Hands : Hands i s entered (enter argon2_verify hash_password hmac s l)
    enter-Hands =
        enter-cases argon2_verify hash_password hmac (Hands i s entered) s l
          (quiet-Hands i s entered _ refl refl refl refl)
          (λ _. quiet-Hands i s entered _ refl refl refl refl)
          (quiet-Hands i s entered _ refl refl refl refl)

    prepare-Hands : Hands i s preparing (prepare argon2_verify hash_password hmac s l)
    prepare-Hands =
        prepare-cases argon2_verify hash_password hmac (Hands i s preparing) s l
          (quiet-Hands i s preparing _ refl refl refl refl)
          (λ _. quiet-Hands i s preparing _ refl refl refl refl)
          (λ e _. quiet-Hands i s preparing _ refl refl refl refl)

    read_hash-Hands :
        (e : UserEntry) → Hands i s (missed e) (read_hash argon2_verify hash_password hmac s e)
    read_hash-Hands e =
        read_hash-cases argon2_verify hash_password hmac (Hands i s (missed e)) s e
          (λ _. quiet-Hands i s (missed e) _ refl refl refl refl)
          (quiet-Hands i s (missed e) _ refl refl refl refl)
          (λ h _ _. quiet-Hands i s (missed e) _ refl refl refl refl)

    hash_claim-Hands :
        (a : Answers) → Hands i s hashing (hash_claim argon2_verify hash_password hmac a s l)
    hash_claim-Hands a =
        hash_claim-cases argon2_verify hash_password hmac (Hands i s hashing) s a l
          (quiet-Hands i s hashing _ refl refl refl refl)
          (λ e h _ _. quiet-Hands i s hashing _ refl refl refl refl)

    recheck-Hands :
        (w : ClaimWork) (p : Phase) (claimed : Bytes → World × Phase) (unclaimed : World × Phase)
        → Hands i s p (s, panicked)
        → ((h : Bytes) → Hands i s p (claimed h))
        → Hands i s p unclaimed
        → Hands i s p (recheck argon2_verify hash_password hmac s w claimed unclaimed)
    recheck-Hands w p claimed unclaimed k0 k k' =
        recheck-cases argon2_verify hash_password hmac (Hands i s p) s w claimed unclaimed (λ _. k0)
          (λ h _ _. k h) (λ _. k')

    take_hashing-Hands :
        (p goes : Phase)
        → holds_lock p ≡ false
        → gate_of p ≡ none
        → Hands i s p (take_hashing argon2_verify hash_password hmac s p goes)
    take_hashing-Hands p goes no_lock no_gate =
        take_hashing-cases argon2_verify hash_password hmac (Hands i s p) s p goes
          (quiet-Hands i s p _ refl refl no_lock no_gate)
          (λ _. quiet-Hands i s p _ refl refl no_lock no_gate)

    verifying-Hands :
        (h : Bytes)
        → Hands i s (verifying h) (verify_against_committed argon2_verify hash_password hmac s l h)
    verifying-Hands h =
        verify-cases argon2_verify hash_password hmac (Hands i s (verifying h)) s l h
          (λ _. quiet-Hands i s (verifying h) _ refl refl refl refl)
          (quiet-Hands i s (verifying h) _ refl refl refl refl)

    module _ (w : ClaimWork) where
      pass_gate-Hands : Hands i s (gated w) (pass_gate argon2_verify hash_password hmac i s w)
      unfolding pass_gate
      pass_gate-Hands = elim (Option-cases (lookup w.name s.auth.claim_gates)) [
        | inr (j, held) ↦ rw (held, pass_gate) (quiet-Hands i s (gated w) _ refl refl refl refl)
        | inl free ↦
            rw (free, pass_gate)
              (recheck-Hands w (gated w) _ _ (quiet-Hands i s (gated w) _ refl refl refl refl)
                (λ h. quiet-Hands i s (gated w) _ refl refl refl refl)
                (record {
                  lock = λ j h. inr (h, λ _ k. cc);
                  gate = λ n j h.
                      let there = sym (lookup-insert_entry n w.name i s.auth.claim_gates) ∙ h in
                      elim (Bool-cases (bytes_eq n w.name)) [
                        | inl same ↦
                            let is_name = bytes_eq_sound n w.name same in
                            let is_j : some i ≡ some j = rw same at there in
                            inl (cc, ap some (sym is_name))
                        | inr differs ↦ inr (rw differs at there, λ _ k. cc)
                      ];
                }))
      ]

      admit-Hands : Hands i s (admitted w) (admit argon2_verify hash_password hmac s w)
      admit-Hands =
          admit-cases argon2_verify hash_password hmac (Hands i s (admitted w)) s w
            (same-Hands i s (admitted w) _ refl refl (λ h. h) (λ n h. h))
            (λ _. same-Hands i s (admitted w) _ refl refl (λ h. h) (λ n h. h))

      -- Behind the check of an account that the list has.
      locked-Hands :
          s.auth.claim_lock ≡ none
          → (h : Bytes) → hash_at s.auth.users w.index ≡ some h
          → Hands i s (committing w) (
              recheck argon2_verify hash_password hmac s w
                (λ g. (release_claim s w.name, reverifying g))
                (record s { auth = record s.auth { claim_lock = some i } }, stat w))
      locked-Hands free h here = elim (Bool-cases (bytes_eq h init_hash)) [
        | inl fresh ↦
            rw (here, fresh, recheck)
              (record { lock = λ j k. inl (cc, refl); gate = λ n j k. inr (k, λ _ m. m) })
        | inr taken ↦
            rw (here, taken, recheck)
              (leaves-Hands i s (committing w) _ w.name (λ j k. (k, refl)) refl refl)
      ]

      take_lock-Hands :
          (h : Bytes)
          → hash_at s.auth.users w.index ≡ some h
          → Hands i s (committing w) (take_lock argon2_verify hash_password hmac i s w)
      unfolding take_lock
      take_lock-Hands h here =
          if_free-cases (Hands i s (committing w)) s.auth.claim_lock
            (same-Hands i s (committing w) _ refl refl (λ k. k) (λ n k. k))
            (λ free. locked-Hands free h here)

      after_persist-Hands :
          (fallback_users : Option (List User)) (disk : Disk) (q : ClaimPersist)
          → Hands i s (persisting w fallback_users) (record s { disk = disk }, after_persist w q)
      after_persist-Hands fallback_users disk written =
          same-Hands i s (persisting w fallback_users) _ refl refl (λ h. h) (λ n h. h)
      after_persist-Hands fallback_users disk (disk_hash_changed h) =
          same-Hands i s (persisting w fallback_users) _ refl refl (λ h. h) (λ n h. h)
      after_persist-Hands fallback_users disk failed =
          same-Hands i s (persisting w fallback_users) _ refl refl (λ h. h) (λ n h. h)

  pub advance-Hands :
      (i : ℕ) (a : Answers) (s : World) (l : Login) (p : Phase)
      → IsIndexed s
      → Phases argon2_verify hash_password hmac s i l p
      → Hands i s p (advance argon2_verify hash_password hmac i a s l p)
  unfolding advance check_hashed take_snapshot persist
  advance-Hands i a s l entered d k = enter-Hands i s l
  advance-Hands i a s l queued d k = take_hashing-Hands i s l queued preparing refl refl
  advance-Hands i a s l preparing d k = prepare-Hands i s l
  advance-Hands i a s l (missed e) d k = read_hash-Hands i s l e
  advance-Hands i a s l hashing d k = hash_claim-Hands i s l a
  advance-Hands i a s l (hashed w) d k =
      recheck-Hands i s l w (hashed w) _ _ (quiet-Hands i s (hashed w) _ refl refl refl refl)
        (λ h. quiet-Hands i s (hashed w) _ refl refl refl refl)
        (quiet-Hands i s (hashed w) _ refl refl refl refl)
  advance-Hands i a s l (gated w) d k = pass_gate-Hands i s l w
  advance-Hands i a s l (admitted w) d k = admit-Hands i s l w
  advance-Hands i a s l (committing w) d k =
      let inside =
        subst (λ x. x < length s.auth.users) (sym k.at_index) (d l.name k.entry k.found) in
      let (u, there) = get_elem?-total s.auth.users w.index inside in
      take_lock-Hands i s l w u.hash (rw there refl)
  advance-Hands i a s l (stat w) d k = same-Hands i s (stat w) _ refl refl (λ h. h) (λ n h. h)
  advance-Hands i a s l (persisting w fallback_users) d k =
      after_persist-Hands i s l w fallback_users _ _
  advance-Hands i a s l (publishing w) d k =
      same-Hands i s (publishing w) _ refl refl (λ h. h) (λ n h. h)
  advance-Hands i a s l (caching w) d k =
      leaves-Hands i s (caching w) _ w.name (λ j h. cc) refl refl
  advance-Hands i a s l (adopting w h) d k =
      leaves-Hands i s (adopting w h) _ w.name (λ j e. cc) refl refl
  advance-Hands i a s l (rearming w) d k =
      leaves-Hands i s (rearming w) _ w.name (λ j h. cc) refl refl
  advance-Hands i a s l (reverifying h) d k =
      take_hashing-Hands i s l (reverifying h) (verifying h) refl refl
  advance-Hands i a s l (verifying h) d k = verifying-Hands i s l h
  advance-Hands i a s l (done b) d k = quiet-Hands i s (done b) _ refl refl refl refl
  advance-Hands i a s l panicked d k = quiet-Hands i s panicked _ refl refl refl refl

  pub drop_future-Hands : (i : ℕ) (s : World) (p : Phase) → Hands i s p (drop_future s p)
  unfolding drop_future
  drop_future-Hands i s entered = quiet-Hands i s entered _ refl refl refl refl
  drop_future-Hands i s queued = quiet-Hands i s queued _ refl refl refl refl
  drop_future-Hands i s (gated w) = quiet-Hands i s (gated w) _ refl refl refl refl
  drop_future-Hands i s (admitted w) =
      leaves-Hands i s (admitted w) _ w.name (λ j h. (h, refl)) refl refl
  drop_future-Hands i s (reverifying h) = quiet-Hands i s (reverifying h) _ refl refl refl refl
  drop_future-Hands i s p = same-Hands i s p _ refl refl (λ h. h) (λ n h. h)
