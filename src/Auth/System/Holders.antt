-- ===== src/Auth/System/Holders.antt =====
-- `AuthState`: who holds the claim's lock and the accounts' gates.
use resocks.Base.{
  ℕ, ◌<◌, ◌≡◌, refl, sym, ap, ◌∙◌, subst, ◌⊎◌, inl, inr, Bool, true, false, Option, none, some,
  List, length, get_elem?-total, Bool-cases, Option-cases,
}
use resocks.Auth.Login.Invariant.{IsIndexed}
use resocks.Auth.Login.Cases.{
  if_free-cases, enter-cases, prepare-cases, hash_claim-cases, recheck-cases, take_hashing-cases,
  admit-cases, verify-cases,
}
use resocks.Auth.Login.Steps.{Phases}
use resocks.Auth.Login.{
  ClaimWork, Phase, entered, queued, preparing, hashing, hashed, gated, admitted, committing, stat,
  persisting, publishing, caching, rearming, adopting, reverifying, verifying, done, panicked,
  Login, World, enter, take_hashing, prepare, hash_claim, check_hashed, pass_gate, admit, take_lock,
  take_snapshot, persist, verify_against_committed, advance, recheck, after_persist, release_claim,
}
use resocks.Auth.Persist.{Disk, Answers, ClaimPersist, written, disk_hash_changed, failed}
use resocks.Auth.State.{User, init_hash, hash_at}
use resocks.Auth.System.Safe.{holds_lock}
use resocks.Auth.System.{drop_future}
use resocks.Rust.Collections.{lookup, remove_entry, lookup-insert_entry, lookup-remove_entry}
use resocks.Rust.Text.{Bytes, bytes_eq, bytes_eq_refl, bytes_eq_sound}
-- The account whose gate the login holds.
pub mod Steps

abbrev pub gate_of : Phase → Option Bytes
gate_of (admitted w) = some w.name
gate_of (committing w) = some w.name
gate_of (stat w) = some w.name
gate_of (persisting w fallback_users) = some w.name
gate_of (publishing w) = some w.name
gate_of (caching w) = some w.name
gate_of (adopting w h) = some w.name
gate_of (rearming w) = some w.name
gate_of _ = none

-- Who holds the lock or a gate after a step of the login `i` took it now, or had it and keeps it.
pub record Hands (i : ℕ) (s : World) (p : Phase) (r : World × Phase) : Type 0 where
  pub lock :
      (j : ℕ)
      → r.0.auth.claim_lock ≡ some j
      → ((j ≡ i) × (holds_lock r.1 ≡ true))
        ⊎ ((s.auth.claim_lock ≡ some j) × (j ≡ i → holds_lock p ≡ true → holds_lock r.1 ≡ true))
  pub gate :
      (n : Bytes) (j : ℕ)
      → lookup n r.0.auth.claim_gates ≡ some j
      → ((j ≡ i) × (gate_of r.1 ≡ some n))
        ⊎ ((lookup n s.auth.claim_gates ≡ some j)
            × (j ≡ i → gate_of p ≡ some n → gate_of r.1 ≡ some n))

module _ (i : ℕ) (s : World) (p : Phase) (r : World × Phase) where
  pub same-Hands :
      r.0.auth.claim_lock ≡ s.auth.claim_lock
      → r.0.auth.claim_gates ≡ s.auth.claim_gates
      → (holds_lock p ≡ true → holds_lock r.1 ≡ true)
      → ((n : Bytes) → gate_of p ≡ some n → gate_of r.1 ≡ some n)
      → Hands i s p r
  same-Hands same_lock same_gates k k' = record {
    lock = λ j h. inr (sym same_lock ∙ h, λ _. k);
    gate = λ n j h. inr (subst (λ g. lookup n g ≡ some j) same_gates h, λ _. k' n);
  }

  -- The login held nothing, and takes nothing.
  pub quiet-Hands :
      r.0.auth.claim_lock ≡ s.auth.claim_lock
      → r.0.auth.claim_gates ≡ s.auth.claim_gates
      → holds_lock p ≡ false
      → gate_of p ≡ none
      → Hands i s p r
  quiet-Hands same_lock same_gates no_lock no_gate =
      same-Hands same_lock same_gates (λ h. cc) (λ n h. cc)

  -- The login gives back the gate, and holds no lock.
  pub leaves-Hands :
      (name : Bytes)
      → ((j : ℕ)
          → r.0.auth.claim_lock ≡ some j
          → (s.auth.claim_lock ≡ some j) × (holds_lock p ≡ false))
      → r.0.auth.claim_gates ≡ remove_entry name s.auth.claim_gates
      → gate_of p ≡ some name
      → Hands i s p r
  leaves-Hands name same_lock gates mine = record {
    lock = λ j h. let (before, no_lock) = same_lock j h in inr (before, λ _ k. cc);
    gate = λ n j h.
        let found : lookup n (remove_entry name s.auth.claim_gates) ≡ some j =
          subst (λ g. lookup n g ≡ some j) gates h in
        let there = sym (lookup-remove_entry n name s.auth.claim_gates) ∙ found in
        elim (Bool-cases (bytes_eq n name)) [
          | inl same ↦ let bad : ◌≡◌ {A = Option ℕ} none (some j) = rw same at there in absurd cc
          | inr differs ↦ inr (
            rw differs at there,
            λ _ k.
                let yes = bytes_eq_refl n in
                let both : some name ≡ some n = sym mine ∙ k in
                let name_n : name ≡ n = cc in absurd cc,
          )
        ];
  }
