-- ===== src/TestKit/Isolated.antt =====
-- Contexts of packages/plugin-testkit/src/create-test-context.ts that share one memory backend.
use ts_plugins.Common.{
  ℕ, ◌≡◌, refl, ap, sym, Bool, true, false, Bool-cases, inl, inr, Option, [], ◌∷◌, ◌++◌, any, arith,
  nat_eq, nat_eq_iff, Text, codes, ℤ,
}
use mathlib.Core.List.{append_assoc}
use ts_plugins.Common.Texts.{starts_with}
use ts_plugins.Kv.{Json, MemoryKvBackend, set, del, data_segment, prefix_of}
use ts_plugins.Kv.Reads.{AnswersSame, isolation}
use ts_plugins.TestKit.{test_namespace}

abbrev pub has_colon : Text → Bool
has_colon name = any (λ c. nat_eq c b':') name

-- What stands before the first colon, and behind it.
starts_with_part :
    (a b s t : Text)
    → has_colon a ≡ false
    → has_colon b ≡ false
    → starts_with (a ++ b':' ∷ s) (b ++ b':' ∷ t) ≡ true
    → (a ≡ b) × (starts_with s t ≡ true)
unfolding starts_with
starts_with_part [] [] s t plain plain' h = (refl, h)
starts_with_part [] (d ∷ b) s t plain plain' h = absurd (ground (arith, plain', h))
starts_with_part (c ∷ a) [] s t plain plain' h = absurd (ground (arith, plain, h))
starts_with_part (c ∷ a) (d ∷ b) s t plain plain' h =
    ground (arith, nat_eq_iff d c, starts_with_part a b s t)

full_prefix :
    (id instance_id : Text)
    → prefix_of (test_namespace id instance_id) data_segment
      ≡ codes "test:" ++ (id ++ b':' ∷ (instance_id ++ codes ":data:"))
full_prefix id instance_id =
    ap (λ t. codes "test:" ++ t) (append_assoc id (b':' ∷ instance_id) (codes ":data:"))

starts_with_same :
    {a a' b b' : Text} → a ≡ a' → b ≡ b' → starts_with a b ≡ true → starts_with a' b' ≡ true
starts_with_same e e' h = cc

starts_with_namespace :
    (id other instance_id other_instance : Text)
    → has_colon id ≡ false
    → has_colon other ≡ false
    → has_colon instance_id ≡ false
    → has_colon other_instance ≡ false
    → starts_with
        (prefix_of (test_namespace id instance_id) data_segment)
        (prefix_of (test_namespace other other_instance) data_segment)
      ≡ true
    → (id ≡ other) × (instance_id ≡ other_instance)
unfolding starts_with
starts_with_namespace id other instance_id other_instance p q r s h =
    let (same, rest) =
      starts_with_part id other _ _ p q
        (starts_with_same (full_prefix id instance_id) (full_prefix other other_instance) h) in
    (same, (starts_with_part instance_id other_instance _ _ r s rest).0)

namespaces_AreApart :
    (id other instance_id other_instance : Text)
    → has_colon id ≡ false
    → has_colon other ≡ false
    → has_colon instance_id ≡ false
    → has_colon other_instance ≡ false
    → ¬ ((id ≡ other) × (instance_id ≡ other_instance))
    → starts_with
        (prefix_of (test_namespace id instance_id) data_segment)
        (prefix_of (test_namespace other other_instance) data_segment)
      ≡ false
namespaces_AreApart id other instance_id other_instance p q r s differ =
    elim (Bool-cases (
      starts_with (prefix_of (test_namespace id instance_id) data_segment)
        (prefix_of (test_namespace other other_instance) data_segment))) [
          | inl begins ↦
              absurd
                (differ (starts_with_namespace id other instance_id other_instance p q r s begins))
          | inr apart ↦ apart
        ]

-- Two contexts of one test factory, of different plugins or of different instances, on the factory's
-- backend: whatever the store of one sets or deletes, `get` and `exists` of the other's, for any key,
-- answer as before. It holds of ids and instances without colons. (`listKeys` is not in this.)
pub test_context_isolation {ℓ} :
    {V : Type ℓ} (json : Json V) (backend : MemoryKvBackend)
    (id other instance_id other_instance key key' : Text) (v : Option V) (ttl : Option ℤ)
    (now later : ℕ)
    → has_colon id ≡ false
    → has_colon other ≡ false
    → has_colon instance_id ≡ false
    → has_colon other_instance ≡ false
    → ¬ ((id ≡ other) × (instance_id ≡ other_instance))
    → let mine = test_namespace id instance_id in
      let theirs = test_namespace other other_instance in
      AnswersSame json mine theirs (set json mine backend key v ttl now).1 backend key' later
      × AnswersSame json mine theirs (del mine backend key).1 backend key' later
test_context_isolation json backend id other instance_id other_instance key key' v ttl now later p q
      r s differ =
    isolation json (test_namespace id instance_id) (test_namespace other other_instance) backend key
      key' v ttl now later
      (record {
        left = namespaces_AreApart id other instance_id other_instance p q r s differ;
        right =
            namespaces_AreApart other id other_instance instance_id q p s r
              (λ e. differ (sym e.0, sym e.1));
      })
