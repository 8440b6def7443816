-- ===== src/Auth/State/Build.antt =====
-- `AuthState::build`: the entry of a name is that of the first user of this name.
use resocks.Base.{
  ℕ, suc, ◌+◌, ◌<◌, ◌≡◌, refl, sym, ap, ◌∙◌, subst, inl, inr, Bool, true, false, Option, none, some,
  List, [], ◌∷◌, length, get_elem?, arith, Bool-cases, Option-cases,
}
use resocks.Auth.Persist.{find_user}
use resocks.Auth.State.{User, UserEntry, AuthState, compile_rule, or_insert, index_users, build}
use resocks.Clients.{AllowedClients}
use resocks.Rust.Collections.{lookup, insert_entry, lookup-insert_entry}
use resocks.Rust.Text.{Bytes, bytes_eq, bytes_eq_refl, bytes_eq_sound}

none_or_some {ℓ} : {A : Type ℓ} {o : Option A} {a : A} → o ≡ none → o ≡ some a → ⊥
none_or_some e h = cc

true_or_false : {b : Bool} → b ≡ true → b ≡ false → ⊥
true_or_false e h = cc

abbrev Entries : Type 0
Entries = List (Bytes × UserEntry)

or_insert-kept :
    (n name : Bytes) (entry e : UserEntry) (m : Entries)
    → lookup n m ≡ some e
    → lookup n (or_insert name entry m) ≡ some e
unfolding or_insert
or_insert-kept n name entry e m there = elim (Option-cases (lookup name m)) [
  | inr (d, known) ↦ rw (known, or_insert) there
  | inl free ↦
      rw (free, or_insert)
        (lookup-insert_entry n name entry m ∙ elim (Bool-cases (bytes_eq n name)) [
          | inl same ↦
              let is_name = bytes_eq_sound n name same in
              let gone = subst (λ x. lookup x m ≡ none) (sym is_name) free in
              absurd (none_or_some gone there)
          | inr other ↦ rw other there
        ])
]

or_insert-new :
    (name : Bytes) (entry : UserEntry) (m : Entries)
    → lookup name m ≡ none
    → lookup name (or_insert name entry m) ≡ some entry
unfolding or_insert
or_insert-new name entry m free =
    rw (free, or_insert) (lookup-insert_entry name name entry m ∙ rw (bytes_eq_refl name) refl)

or_insert-other :
    (n name : Bytes) (entry : UserEntry) (m : Entries)
    → bytes_eq name n ≡ false
    → lookup n m ≡ none
    → lookup n (or_insert name entry m) ≡ none
unfolding or_insert
or_insert-other n name entry m differs free = elim (Option-cases (lookup name m)) [
  | inr (d, known) ↦ rw (known, or_insert) free
  | inl fresh ↦
      rw (fresh, or_insert)
        (lookup-insert_entry n name entry m ∙ elim (Bool-cases (bytes_eq n name)) [
          | inl same ↦
              let is_name = bytes_eq_sound n name same in
              let yes = bytes_eq_refl n in
              absurd (true_or_false (subst (λ x. bytes_eq x n ≡ true) is_name yes) differs)
          | inr other ↦ rw other free
        ])
]

abbrev entry_of : ℕ → User → Option AllowedClients → UserEntry
entry_of index u allowed = record {
  index = index;
  enabled = u.is_enabled;
  direct = u.direct;
  allowed = allowed;
}

index_users-step :
    (index : ℕ) (u : User) (us : List User) (m r : Entries)
    → index_users index (u ∷ us) m ≡ some r
    → (allowed : Option AllowedClients) × (compile_rule u.allowed_clients ≡ some allowed)
      × (index_users (suc index) us (or_insert u.name (entry_of index u allowed) m) ≡ some r)
unfolding index_users
index_users-step index u us m r made = elim (Option-cases (compile_rule u.allowed_clients)) [
  | inl bad ↦ absurd (none_or_some (rw (bad, index_users) refl) made)
  | inr (allowed, good) ↦ (allowed, good, rw (good, index_users) at made)
]

index_users-kept :
    (us : List User) (index : ℕ) (m r : Entries) (n : Bytes) (e : UserEntry)
    → lookup n m ≡ some e
    → index_users index us m ≡ some r
    → lookup n r ≡ some e
unfolding index_users
index_users-kept [] index m r n e there made =
    let same : m ≡ r = cc in subst (λ x. lookup n x ≡ some e) same there
index_users-kept (u ∷ us) index m r n e there made =
    let (allowed, _, rest) = index_users-step index u us m r made in
    index_users-kept us (suc index) _ r n e
      (or_insert-kept n u.name (entry_of index u allowed) e m there) rest

-- The entry is made of this user, at this index.
pub record IsEntry (e : UserEntry) (u : User) (index : ℕ) : Type 0 where
  pub at_index : e.index ≡ index
  pub same_enabled : e.enabled ≡ u.is_enabled
  pub same_direct : e.direct ≡ u.direct
  pub compiled : compile_rule u.allowed_clients ≡ some e.allowed

index_users-first :
    (us : List User) (index : ℕ) (m r : Entries) (n : Bytes) (u : User)
    → lookup n m ≡ none
    → find_user n us ≡ some u
    → index_users index us m ≡ some r
    → (e : UserEntry) × (j : ℕ) × (lookup n r ≡ some e)
      × (get_elem? us j ≡ some u)
      × IsEntry e u (index + j)
unfolding find_user
index_users-first [] index m r n u free there made = cc
index_users-first (v ∷ us) index m r n u free there made =
    let (allowed, compiled, rest) = index_users-step index v us m r made in
    elim (Bool-cases (bytes_eq v.name n)) [
      | inl same ↦
          let is_name = bytes_eq_sound v.name n same in
          let is_v : some v ≡ some u = rw same at there in
          let v_u : v ≡ u = cc in
          let put = or_insert-new n (entry_of index v allowed) m free in
          let kept =
            index_users-kept us (suc index) _ r n (entry_of index v allowed)
              (subst
                (λ x.
                  lookup n (or_insert x (entry_of index v allowed) m)
                  ≡ some (entry_of index v allowed))
                (sym is_name) put)
              rest in
          (
            entry_of index v allowed,
            0,
            kept,
            ap some v_u,
            subst (λ x. IsEntry (entry_of index v allowed) x (index + 0)) v_u
                (record {
                  at_index = omega arith;
                  same_enabled = refl;
                  same_direct = refl;
                  compiled = compiled;
                }),
          )
      | inr other ↦
          let (e, j, found, at_j, made_of) =
            index_users-first us (suc index) _ r n u
              (or_insert-other n v.name (entry_of index v allowed) m other free) (rw other at there)
              rest in
          (e, suc j, found, at_j, subst (IsEntry e u) (omega arith) made_of)
    ]

-- The entries so far are all of earlier users.
abbrev AllBelow : ℕ → Entries → Type 0
AllBelow k m = (n : Bytes) (e : UserEntry) → lookup n m ≡ some e → e.index < k

or_insert-AllBelow :
    (index : ℕ) (u : User) (allowed : Option AllowedClients) (m : Entries)
    → AllBelow index m
    → AllBelow (suc index) (or_insert u.name (entry_of index u allowed) m)
unfolding or_insert
or_insert-AllBelow index u allowed m below n e there = elim (Option-cases (lookup u.name m)) [
  | inr (d, known) ↦ omega (arith, below n e (rw (known, or_insert) at there))
  | inl fresh ↦
      let made : lookup n (insert_entry u.name (entry_of index u allowed) m) ≡ some e =
        rw (fresh, or_insert) at there in
      let found = sym (lookup-insert_entry n u.name (entry_of index u allowed) m) ∙ made in
      elim (Bool-cases (bytes_eq n u.name)) [
        | inl same ↦
            let is_e : some (entry_of index u allowed) ≡ some e = rw same at found in
            let e_is : entry_of index u allowed ≡ e = cc in
            subst (λ x. x.index < suc index) e_is (omega arith)
        | inr other ↦ omega (arith, below n e (rw other at found))
      ]
]

index_users-AllBelow :
    (us : List User) (index : ℕ) (m r : Entries)
    → AllBelow index m
    → index_users index us m ≡ some r
    → AllBelow (index + length us) r
unfolding index_users
index_users-AllBelow [] index m r below made n e there =
    let same : m ≡ r = cc in
    omega (arith, below n e (subst (λ x. lookup n x ≡ some e) (sym same) there))
index_users-AllBelow (u ∷ us) index m r below made n e there =
    let (allowed, _, rest) = index_users-step index u us m r made in
    omega (
      arith,
      index_users-AllBelow us (suc index) _ r (or_insert-AllBelow index u allowed m below) rest n e
          there,
    )

module _ (allow_anonymous : Bool) (users : List User) (secret : Bytes) (workers : ℕ) (s : AuthState)
    (made : build allow_anonymous users secret workers ≡ some s) where
  abbrev start : Entries → AuthState
  start entries = record {
    users = users;
    claim_lock = none;
    entries = entries;
    verify_slots = workers;
    claim_slots = 2;
    claim_gates = [];
    allow_anonymous = allow_anonymous;
    server_secret = secret;
    cache = [];
  }

  pub build-start :
      (entries : Entries) × (index_users 0 users [] ≡ some entries) × (start entries ≡ s)
  unfolding build
  build-start = elim (Option-cases (index_users 0 users [])) [
    | inl bad ↦ absurd (none_or_some (rw (bad, build) refl) made)
    | inr (entries, good) ↦
        let is_s : some (start entries) ≡ some s = rw (good, build) at made in (entries, good, cc)
  ]

  pub build-AllBelow :
      (n : Bytes) (e : UserEntry) → lookup n s.entries ≡ some e → e.index < length s.users
  unfolding lookup
  build-AllBelow =
      let (entries, good, is_s) = build-start in
      subst
        (λ x. (n : Bytes) (e : UserEntry) → lookup n x.entries ≡ some e → e.index < length x.users)
        is_s
        (λ n e found. omega (
          arith,
          index_users-AllBelow users 0 [] entries (λ n e bad. absurd (none_or_some refl bad)) good n
              e found,
        ))

  -- The entry of a name that the list has is that of the first user of this name, with his rule
  -- compiled: the user whose hash `persist_claim` writes in the file is the one whose hash
  -- `claim_commit` writes in memory.
  pub build-first_user :
      (n : Bytes) (u : User)
      → find_user n users ≡ some u
      → (e : UserEntry) × (lookup n s.entries ≡ some e)
        × (get_elem? s.users e.index ≡ some u)
        × (e.enabled ≡ u.is_enabled)
        × (e.direct ≡ u.direct)
        × (compile_rule u.allowed_clients ≡ some e.allowed)
  unfolding lookup
  build-first_user n u there =
      let (entries, good, is_s) = build-start in
      let (e, j, found, at_j, made_of) = index_users-first users 0 [] entries n u refl there good in
      let back : j ≡ e.index = omega (arith, made_of.at_index) in
      subst
        (λ x.
          (e : UserEntry) × (lookup n x.entries ≡ some e)
          × (get_elem? x.users e.index ≡ some u)
          × (e.enabled ≡ u.is_enabled)
          × (e.direct ≡ u.direct)
          × (compile_rule u.allowed_clients ≡ some e.allowed))
        is_s
        (
          e,
          found,
          subst (λ k. get_elem? users k ≡ some u) back at_j,
          made_of.same_enabled,
          made_of.same_direct,
          made_of.compiled,
        )
