-- ===== src/Auth/Login/Steps/Prepare.antt =====
-- `AuthState`: the steps of a login up to the claim's lock.
use resocks.Base.{
  ℕ, suc, ◌-◌, ◌<◌, ◌≡◌, ◌≢◌, refl, sym, ◌∙◌, subst, Bool, true, false, Option, some, length,
}
use resocks.Auth.Login.Invariant.{
  IsIndexed, IsCommitted, Moves, IsWork, IsCommitted-Moves, IsWork-Moves, IsPhase-Moves_done,
}
use resocks.Auth.Login.Cases.{
  if_free-cases, enter-cases, prepare-cases, read_hash-cases, hash_claim-cases, recheck-cases,
  admit-cases,
}
use resocks.Auth.Login.{
  ClaimWork, Phase, queued, missed, hashing, gated, admitted, committing, stat, reverifying,
  verifying, done, Login, World, candidate, cache_matches, enter, prepare, read_hash, hash_claim,
  check_hashed, pass_gate, admit, take_lock, recheck,
}
use resocks.Auth.Persist.{Answers}
use resocks.Auth.State.Hashes.{enabled_entry-lookup, hash_at-inside, cache_hit-some}
use resocks.Auth.State.{UserEntry, init_hash, hash_at}
use resocks.Rust.Collections.{lookup, insert_entry, remove_entry}
use resocks.Rust.Text.{Bytes, bytes_eq, bytes_eq_refl}
use resocks.Auth.Login.Steps.{
  IsStep, Phases, Cached, lightly-IsStep, gently-IsStep, idle-IsStep, freed-IsStep,
}

differs : (h : Bytes) → bytes_eq h init_hash ≡ false → h ≢ init_hash
differs h miss e = let yes = bytes_eq_refl h in cc

module _ (argon2_verify : Bytes → Bytes → Bool) (hash_password : Bytes → Bytes → Option Bytes)
    (hmac : Bytes → Bytes → Bytes) where
  module _ (i : ℕ) (s : World) (l : Login) (c : Cached argon2_verify hash_password hmac s) where
    cache_matches-IsAuthentic :
        cache_matches argon2_verify hash_password hmac s.auth l.name
            (candidate argon2_verify hash_password hmac s l)
          ≡ true
        → Phases argon2_verify hash_password hmac s i l (done true)
    unfolding cache_matches
    cache_matches-IsAuthentic hit = c l.name _ (cache_hit-some (lookup l.name s.auth.cache) _ hit)

    pub enter-IsStep :
        IsStep argon2_verify hash_password hmac i s l (enter argon2_verify hash_password hmac s l)
    enter-IsStep =
        enter-cases argon2_verify hash_password hmac (IsStep argon2_verify hash_password hmac i s l)
          s l (idle-IsStep argon2_verify hash_password hmac i s l c (done false) tt)
          (λ hit.
            idle-IsStep argon2_verify hash_password hmac i s l c (done true)
              (cache_matches-IsAuthentic hit))
          (idle-IsStep argon2_verify hash_password hmac i s l c queued tt)

    pub prepare-IsStep :
        IsStep argon2_verify hash_password hmac i s l (prepare argon2_verify hash_password hmac s l)
    prepare-IsStep =
        prepare-cases argon2_verify hash_password hmac
          (IsStep argon2_verify hash_password hmac i s l) s l
          (freed-IsStep argon2_verify hash_password hmac i s l c (done false) (λ _ _. tt))
          (λ hit. freed-IsStep argon2_verify hash_password hmac i s l c (done true) (λ s' m.
            IsPhase-Moves_done argon2_verify hash_password hmac i s s' m i l
              (cache_matches-IsAuthentic hit)))
          (λ e known.
            idle-IsStep argon2_verify hash_password hmac i s l c (missed e)
              (enabled_entry-lookup s.auth.entries l.name e known))

    pub read_hash-IsStep :
        (e : UserEntry)
        → IsIndexed s
        → Phases argon2_verify hash_password hmac s i l (missed e)
        → IsStep argon2_verify hash_password hmac i s l
            (read_hash argon2_verify hash_password hmac s e)
    read_hash-IsStep e indexed (found, on) =
        read_hash-cases argon2_verify hash_password hmac
          (IsStep argon2_verify hash_password hmac i s l) s e
          (λ outside. absurd (hash_at-inside s.auth.users e.index (indexed l.name e found) outside))
          (idle-IsStep argon2_verify hash_password hmac i s l c hashing (e, found, on))
          (λ h here taken.
            idle-IsStep argon2_verify hash_password hmac i s l c (verifying h) (record {
              entry = e;
              found = found;
              is_enabled = on;
              published = here;
              chosen = differs h taken;
            }))

    recheck-IsStep :
        (w : ClaimWork) (claimed : Bytes → World × Phase) (unclaimed : World × Phase)
        → IsIndexed s
        → IsWork argon2_verify hash_password hmac s l w
        → ((h : Bytes)
            → IsCommitted s l.name h
            → IsStep argon2_verify hash_password hmac i s l (claimed h))
        → (hash_at s.auth.users w.index ≡ some init_hash
            → IsStep argon2_verify hash_password hmac i s l unclaimed)
        → IsStep argon2_verify hash_password hmac i s l
            (recheck argon2_verify hash_password hmac s w claimed unclaimed)
    recheck-IsStep w claimed unclaimed indexed k if_claimed if_unclaimed =
        let inside : w.index < length s.auth.users =
          subst (λ x. x < length s.auth.users) (sym k.at_index) (indexed l.name k.entry k.found) in
        recheck-cases argon2_verify hash_password hmac
          (IsStep argon2_verify hash_password hmac i s l) s w claimed unclaimed
          (λ outside. absurd (hash_at-inside s.auth.users w.index inside outside))
          (λ h here taken. if_claimed h (record {
            entry = k.entry;
            found = k.found;
            is_enabled = k.is_enabled;
            published = subst (λ x. hash_at s.auth.users x ≡ some h) k.at_index here;
            chosen = differs h taken;
          }))
          if_unclaimed

    pub hash_claim-IsStep :
        (a : Answers)
        → Phases argon2_verify hash_password hmac s i l hashing
        → IsStep argon2_verify hash_password hmac i s l
            (hash_claim argon2_verify hash_password hmac a s l)
    hash_claim-IsStep a (e, found, on) =
        hash_claim-cases argon2_verify hash_password hmac
          (IsStep argon2_verify hash_password hmac i s l) s a l
          (freed-IsStep argon2_verify hash_password hmac i s l c (done false) (λ _ _. tt))
          (λ d h hashes there. idle-IsStep argon2_verify hash_password hmac i s l c _ (record {
            same_name = refl;
            entry = d;
            found = there;
            is_enabled =
                let both : some e ≡ some d = sym found ∙ there in
                let e_d : e ≡ d = cc in subst (λ x. x.enabled ≡ true) e_d on;
            at_index = refl;
            salt = a.salt;
            hashes = hashes;
          }))

    module _ (w : ClaimWork) (indexed : IsIndexed s)
        (k : IsWork argon2_verify hash_password hmac s l w) where
      work : (s' : World) → Moves i s s' → IsWork argon2_verify hash_password hmac s' l w
      work s' m = IsWork-Moves argon2_verify hash_password hmac i s s' m l w k

      pub check_hashed-IsStep :
          IsStep argon2_verify hash_password hmac i s l
            (check_hashed argon2_verify hash_password hmac s w)
      unfolding check_hashed
      check_hashed-IsStep =
          recheck-IsStep w _ _ indexed k
            (λ h y. idle-IsStep argon2_verify hash_password hmac i s l c (verifying h) y)
            (λ _. freed-IsStep argon2_verify hash_password hmac i s l c (gated w) work)

      pub pass_gate-IsStep :
          IsStep argon2_verify hash_password hmac i s l
            (pass_gate argon2_verify hash_password hmac i s w)
      unfolding pass_gate
      pass_gate-IsStep =
          if_free-cases (IsStep argon2_verify hash_password hmac i s l)
            (lookup w.name s.auth.claim_gates)
            (idle-IsStep argon2_verify hash_password hmac i s l c (gated w) k)
            (λ _.
              recheck-IsStep w _ _ indexed k
                (λ h y. idle-IsStep argon2_verify hash_password hmac i s l c (reverifying h) y)
                (λ _.
                  gently-IsStep argon2_verify hash_password hmac i s s.auth.verify_slots
                    s.auth.claim_slots (insert_entry w.name i s.auth.claim_gates) s.disk l
                    (admitted w) c (λ s' m _ _. work s' m)))

      pub admit-IsStep :
          IsStep argon2_verify hash_password hmac i s l (admit argon2_verify hash_password hmac s w)
      admit-IsStep =
          admit-cases argon2_verify hash_password hmac
            (IsStep argon2_verify hash_password hmac i s l) s w
            (idle-IsStep argon2_verify hash_password hmac i s l c (admitted w) k)
            (λ _.
              gently-IsStep argon2_verify hash_password hmac i s s.auth.verify_slots
                (s.auth.claim_slots - 1) s.auth.claim_gates s.disk l (committing w) c
                (λ s' m _ _. work s' m))

      pub take_lock-IsStep :
          IsStep argon2_verify hash_password hmac i s l
            (take_lock argon2_verify hash_password hmac i s w)
      unfolding take_lock
      take_lock-IsStep =
          if_free-cases (IsStep argon2_verify hash_password hmac i s l) s.auth.claim_lock
            (idle-IsStep argon2_verify hash_password hmac i s l c (committing w) k)
            (λ free.
              recheck-IsStep w _ _ indexed k
                (λ h y.
                  gently-IsStep argon2_verify hash_password hmac i s s.auth.verify_slots
                    (suc s.auth.claim_slots) (remove_entry w.name s.auth.claim_gates) s.disk l
                    (reverifying h) c
                    (λ s' m _ _.
                      IsCommitted-Moves argon2_verify hash_password hmac i s s' m l.name h y))
                (λ open_account.
                  lightly-IsStep argon2_verify hash_password hmac i s s.auth.verify_slots
                    s.auth.claim_slots s.auth.claim_gates (some i) s.disk (λ j _ held. cc) l
                    (stat w) c
                    (λ m. record { work = work _ m; locked = refl; unclaimed = open_account })))
