-- ===== src/Rotator/Slots/Lookup.antt =====
-- `try_with_quarantine` and `index_of`: one slot for each upstream, and it is found again, whatever
-- the hash.
use mathlib.Core.Option.{some-injective}
use resocks.Base.{
  get_elem?-below, ℕ, zero, suc, ◌≡◌, ◌↔◌, ◌⊎◌, refl, ap, sym, subst, ◌∙◌, true, false, none, some,
  List, [], ◌∷◌, ◌++◌, length, get_elem?, arith, inl, inr, Bool-cases, Option-cases, ◌==◌,
}
use resocks.Proxy.{ProxyConfig}
use resocks.Rotator.Slots.Identity.{same_upstream-identity, identity-same_upstream}
use resocks.Rotator.Slots.{
  identity, Identity, Buckets, bucket, push, slots_of, find_slot, add_upstream, add_upstreams,
  index_in,
}
use resocks.Rust.Text.{contains}
-- A slot holds the upstream.
use resocks.Rotator.Slots.Found.{
  Holds, get_elem?-append_one, find_slot-Holds, find_slot-some, contains-push,
}

module _ (hash_one : Identity → ℕ) where
  abbrev pub hash : ProxyConfig → ℕ
  hash p = hash_one (identity p)

  pub record IsTable (proxies : List ProxyConfig) (by_identity : Buckets) : Type 0 where
    pub filed :
        (i : ℕ) (q : ProxyConfig)
        → get_elem? proxies i ≡ some q
        → contains i (slots_of (bucket (hash q) by_identity)) ≡ true
    pub distinct :
        (i j : ℕ) (p q : ProxyConfig)
        → get_elem? proxies i ≡ some p
        → get_elem? proxies j ≡ some q
        → identity p ≡ identity q
        → i ≡ j

  push-filed :
      (ps : List ProxyConfig) (bs : Buckets) (p : ProxyConfig)
      → IsTable ps bs
      → (i : ℕ) (q : ProxyConfig) → get_elem? (ps ++ p ∷ []) i ≡ some q
      → contains i (slots_of (bucket (hash q) (push (hash p) (length ps) bs))) ≡ true
  push-filed ps bs p t i q there = elim (Bool-cases (i == length ps)) [
    | inl last ↦
        let e : i ≡ length ps = ground arith in
        let is_p : some p ≡ some q = rw (get_elem?-append_one ps p i, last) at there in
        let same : p ≡ q = cc in
        rw (contains-push i (hash q) (hash p) (length ps) bs) (ground arith)
    | inr before ↦
        let there' : get_elem? ps i ≡ some q = rw (get_elem?-append_one ps p i, before) at there in
        rw (contains-push i (hash q) (hash p) (length ps) bs, t.filed i q there') refl
  ]

  -- No slot holds this upstream.
  abbrev IsNew : List ProxyConfig → ProxyConfig → Type 0
  IsNew ps p = (i : ℕ) (q : ProxyConfig) → get_elem? ps i ≡ some q → ¬ (identity p ≡ identity q)

  distinct_from_last :
      (ps : List ProxyConfig) (bs : Buckets) (p : ProxyConfig)
      → IsTable ps bs
      → IsNew ps p
      → (i j : ℕ) (a b : ProxyConfig) → get_elem? (ps ++ p ∷ []) i ≡ some a
      → get_elem? (ps ++ p ∷ []) j ≡ some b
      → identity a ≡ identity b
      → i ≡ j
  distinct_from_last ps bs p t is_new i j a b at_i at_j same =
      let at_i' = sym (get_elem?-append_one ps p i) ∙ at_i in
      let at_j' = sym (get_elem?-append_one ps p j) ∙ at_j in
      elim (Bool-cases (i == length ps)) [
        | inl i_last ↦ elim (Bool-cases (j == length ps)) [
          | inl j_last ↦ ground arith
          | inr j_before ↦
              let is_p : some p ≡ some a = rw i_last at at_i' in
              let e : p ≡ a = cc in absurd (is_new j b (rw j_before at at_j') (rw e same))
        ]
        | inr i_before ↦ elim (Bool-cases (j == length ps)) [
          | inl j_last ↦
              let is_p : some p ≡ some b = rw j_last at at_j' in
              let e : p ≡ b = cc in absurd (is_new i a (rw i_before at at_i') (rw e (sym same)))
          | inr j_before ↦ t.distinct i j a b (rw i_before at at_i') (rw j_before at at_j') same
        ]
      ]

  found_none-IsNew :
      (ps : List ProxyConfig) (bs : Buckets) (p : ProxyConfig)
      → IsTable ps bs
      → find_slot p ps (slots_of (bucket (hash p) bs)) ≡ none
      → IsNew ps p
  found_none-IsNew ps bs p t h i q there same =
      let filed : contains i (slots_of (bucket (hash p) bs)) ≡ true =
        ap (λ k. contains i (slots_of (bucket (hash_one k) bs))) same ∙ t.filed i q there in
      let (j, found) =
        find_slot-some p ps (slots_of (bucket (hash p) bs)) i filed
          (q, there, identity-same_upstream p q same) in
      cc

  -- What `add_upstream` does: nothing, because a slot holds the upstream, or a new slot at the end.
  abbrev Added : List ProxyConfig × Buckets → ProxyConfig → Type 0
  Added (ps, bs) p =
      ((add_upstream hash_one (ps, bs) p ≡ (ps, bs)) × ((i : ℕ) × Holds ps i p))
      ⊎ ((add_upstream hash_one (ps, bs) p ≡ (ps ++ p ∷ [], push (hash p) (length ps) bs))
          × IsNew ps p)

  add_upstream-Added :
      (ps : List ProxyConfig) (bs : Buckets) (p : ProxyConfig) → IsTable ps bs → Added (ps, bs) p
  unfolding add_upstream
  add_upstream-Added ps bs p t =
      elim (Option-cases (find_slot p ps (slots_of (bucket (hash p) bs)))) [
        | inl nowhere ↦ inr (rw nowhere refl, found_none-IsNew ps bs p t nowhere)
        | inr (i, found) ↦
            inl (rw found refl, (i, find_slot-Holds p ps (slots_of (bucket (hash p) bs)) i found))
      ]

  add_upstream-IsTable :
      (ps : List ProxyConfig) (bs : Buckets) (p : ProxyConfig)
      → IsTable ps bs
      → IsTable (add_upstream hash_one (ps, bs) p).0 (add_upstream hash_one (ps, bs) p).1
  add_upstream-IsTable ps bs p t = elim (add_upstream-Added ps bs p t) [
    | inl (same, _) ↦ rw same t
    | inr (added, is_new) ↦
        rw added
          (record { filed = push-filed ps bs p t; distinct = distinct_from_last ps bs p t is_new })
  ]

  -- A slot keeps its number.
  get_elem?-kept :
      (ps : List ProxyConfig) (bs : Buckets) (p : ProxyConfig) (i : ℕ) (q : ProxyConfig)
      → IsTable ps bs
      → get_elem? ps i ≡ some q
      → get_elem? (add_upstream hash_one (ps, bs) p).0 i ≡ some q
  get_elem?-kept ps bs p i q t there = elim (add_upstream-Added ps bs p t) [
    | inl (same, _) ↦ rw same there
    | inr (added, _) ↦
        let inside = get_elem?-below ps i q there in
        let other : (i == length ps) ≡ false = ground arith in
        rw (added, get_elem?-append_one ps p i, other) there
  ]

  -- The upstream just added has a slot.
  add_upstream-Holds :
      (ps : List ProxyConfig) (bs : Buckets) (p : ProxyConfig)
      → IsTable ps bs
      → (i : ℕ) × Holds (add_upstream hash_one (ps, bs) p).0 i p
  add_upstream-Holds ps bs p t = elim (add_upstream-Added ps bs p t) [
    | inl (same, held) ↦ rw same held
    | inr (added, _) ↦
        let here : (length ps == length ps) ≡ true = ground arith in
        (
          length ps,
          (
            p,
            rw (added, get_elem?-append_one ps p (length ps), here) refl,
            identity-same_upstream p p refl,
          ),
        )
  ]

  Holds-kept :
      (ps : List ProxyConfig) (bs : Buckets) (i : ℕ) (p : ProxyConfig) (rest : List ProxyConfig)
      → IsTable ps bs
      → Holds ps i p
      → Holds (add_upstreams hash_one (ps, bs) rest).0 i p
  unfolding add_upstreams
  Holds-kept ps bs i p [] t held = held
  Holds-kept ps bs i p (x ∷ rest) t (q, there, same) =
      let (ps', bs') = add_upstream hash_one (ps, bs) x in
      Holds-kept ps' bs' i p rest (add_upstream-IsTable ps bs x t)
        (q, get_elem?-kept ps bs x i q t there, same)

  pub add_upstreams-IsTable :
      (ps : List ProxyConfig) (bs : Buckets) (rest : List ProxyConfig)
      → IsTable ps bs
      → IsTable (add_upstreams hash_one (ps, bs) rest).0 (add_upstreams hash_one (ps, bs) rest).1
  unfolding add_upstreams
  add_upstreams-IsTable ps bs [] t = t
  add_upstreams-IsTable ps bs (x ∷ rest) t =
      let (ps', bs') = add_upstream hash_one (ps, bs) x in
      add_upstreams-IsTable ps' bs' rest (add_upstream-IsTable ps bs x t)

  pub add_upstreams-Holds :
      (ps : List ProxyConfig) (bs : Buckets) (rest : List ProxyConfig) (k : ℕ) (p : ProxyConfig)
      → IsTable ps bs
      → get_elem? rest k ≡ some p
      → (i : ℕ) × Holds (add_upstreams hash_one (ps, bs) rest).0 i p
  unfolding add_upstreams
  add_upstreams-Holds ps bs [] k p t there = cc
  add_upstreams-Holds ps bs (x ∷ rest) zero p t there =
      let e : x ≡ p = some-injective x p there in
      let (ps', bs') = add_upstream hash_one (ps, bs) x in
      let (i, held) = add_upstream-Holds ps bs x t in
      (
        i,
        Holds-kept ps' bs' i p rest (add_upstream-IsTable ps bs x t)
            (subst (λ y. Holds ps' i y) e held),
      )
  add_upstreams-Holds ps bs (x ∷ rest) (suc k) p t there =
      let (ps', bs') = add_upstream hash_one (ps, bs) x in
      add_upstreams-Holds ps' bs' rest k p (add_upstream-IsTable ps bs x t) there

  pub empty-IsTable : IsTable [] []
  empty-IsTable = record { filed = λ i q h. cc; distinct = λ i j p q h h' e. cc }

  index_in-find_slot :
      (ps : List ProxyConfig) (bs : Buckets) (p : ProxyConfig)
      → index_in hash_one (ps, bs) p ≡ find_slot p ps (slots_of (bucket (hash p) bs))
  unfolding index_in
  index_in-find_slot ps bs p = elim (Option-cases (bucket (hash p) bs)) [
    | inl absent ↦ rw (absent, index_in) (unfold find_slot in refl)
    | inr (slots, there) ↦ rw (there, index_in) refl
  ]

  pub index_in-Holds :
      (ps : List ProxyConfig) (bs : Buckets) (p : ProxyConfig) (i : ℕ)
      → index_in hash_one (ps, bs) p ≡ some i
      → Holds ps i p
  index_in-Holds ps bs p i h =
      find_slot-Holds p ps (slots_of (bucket (hash p) bs)) i (sym (index_in-find_slot ps bs p) ∙ h)

  pub Holds-index_in :
      (ps : List ProxyConfig) (bs : Buckets) (p : ProxyConfig) (i : ℕ)
      → IsTable ps bs
      → Holds ps i p
      → index_in hash_one (ps, bs) p ≡ some i
  Holds-index_in ps bs p i t (q, there, same) =
      let slots = slots_of (bucket (hash p) bs) in
      let identical = same_upstream-identity p q same in
      let filed : contains i slots ≡ true =
        ap (λ k. contains i (slots_of (bucket (hash_one k) bs))) identical ∙ t.filed i q there in
      let (j, found) = find_slot-some p ps slots i filed (q, there, same) in
      let (q', there', same') = find_slot-Holds p ps slots j found in
      let e : j ≡ i =
        t.distinct j i q' q there' there (sym (same_upstream-identity p q' same') ∙ identical) in
      index_in-find_slot ps bs p ∙ found ∙ ap some e

  module _ (proxies : List ProxyConfig) where
    abbrev table : List ProxyConfig × Buckets
    table = add_upstreams hash_one ([], []) proxies

    -- Whatever the hash, also one that collides: `index_of` gives a slot exactly if the slot holds
    -- the upstream, its gate left aside.
    pub index_in-iff-Holds :
        (p : ProxyConfig) (i : ℕ) → (index_in hash_one table p ≡ some i) ↔ Holds table.0 i p
    index_in-iff-Holds p i =
        let t = add_upstreams-IsTable [] [] proxies empty-IsTable in
        (index_in-Holds table.0 table.1 p i, Holds-index_in table.0 table.1 p i t)

    -- Each upstream of the list has one slot, and no two slots hold the same upstream.
    pub add_upstreams_unique :
        ((k : ℕ) (p : ProxyConfig)
          → get_elem? proxies k ≡ some p
          → (i : ℕ) × (index_in hash_one table p ≡ some i))
        × ((i j : ℕ) (p : ProxyConfig) → Holds table.0 i p → Holds table.0 j p → i ≡ j)
    add_upstreams_unique =
        let t = add_upstreams-IsTable [] [] proxies empty-IsTable in
        (
          λ k p there.
              let (i, held) = add_upstreams-Holds [] [] proxies k p empty-IsTable there in
              (i, Holds-index_in table.0 table.1 p i t held),
          λ i j p (a, at_i, same_a) (b, at_j, same_b).
              t.distinct i j a b at_i at_j
                (sym (same_upstream-identity p a same_a) ∙ same_upstream-identity p b same_b),
        )
