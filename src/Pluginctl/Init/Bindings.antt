-- ===== src/Pluginctl/Init/Bindings.antt =====
-- The messages that packages/pluginctl/src/generate.ts imports for a new project.
use mathlib.Core.List.{append_assoc}
use ts_plugins.Common.{
  ℕ, ◌≡◌, refl, ap, sym, ◌∙◌, false, List, [], ◌∷◌, ◌++◌, length, length-append, arith, Bool-cases,
  inl, inr, Text, text_eq, ◌==◌, ==_iff, codes,
}
use ts_plugins.Common.Parts.{join}
use ts_plugins.Codegen.Handlers.{Printer}
use ts_plugins.Pluginctl.Generate.{
  Tools, normalize_proto_source, replace_proto_suffix, normalize_module_specifier,
  messages_specifier,
}
use ts_plugins.Templates.{feature_name, proto_path_of}
use ts_plugins.Templates.Starter.{filled}

longer_IsNot : (c : ℕ) (t : Text) → (c ∷ (t ++ codes ".proto") == codes ".proto") ≡ false
longer_IsNot c t = elim (Bool-cases (c ∷ (t ++ codes ".proto") == codes ".proto")) [
  | inl same ↦
      let e = ap length ((==_iff (c ∷ (t ++ codes ".proto")) (codes ".proto")).0 same) in
      absurd (omega (arith, e, length-append t (codes ".proto")))
  | inr other ↦ other
]

replace-append : (t : Text) → replace_proto_suffix (t ++ codes ".proto") ≡ t ++ codes "_pb.js"
unfolding replace_proto_suffix
replace-append [] = refl
replace-append (c ∷ t) = rw (longer_IsNot c t) (ap (λ u. c ∷ u) (replace-append t))

split_suffix :
    (name : Text) → name ++ codes "_plugin.proto" ≡ (name ++ codes "_plugin") ++ codes ".proto"
split_suffix [] = refl
split_suffix (c ∷ name) = ap (λ t. c ∷ t) (split_suffix name)

-- The path below `proto/` of a project's proto source, as `protoc-gen-es` names its messages.
path_suffix :
    (path name : Text)
    → replace_proto_suffix (path ++ (codes "/" ++ (name ++ codes "_plugin.proto")))
      ≡ (path ++ (codes "/" ++ (name ++ codes "_plugin"))) ++ codes "_pb.js"
path_suffix path name =
    ap (λ t. replace_proto_suffix (path ++ (codes "/" ++ t))) (split_suffix name)
    ∙ ap replace_proto_suffix
        (sym (append_assoc path (codes "/" ++ (name ++ codes "_plugin")) (codes ".proto")))
    ∙ replace-append (path ++ (codes "/" ++ (name ++ codes "_plugin")))

module _ {ℓ} {S Schema : Type ℓ} (tools : Tools S Schema) (printer : Printer) where
  -- For the proto source that the manifest of a new project names, the handlers import their
  -- messages from `gen/ts`, the directories of the package, and the file of `protoc-gen-es`.
  pub messages_specifier-proto_path_of :
      (segment : Text) (segments : List Text)
      → messages_specifier tools printer (filled (codes "./" ++ proto_path_of (segment ∷ segments)))
        ≡ normalize_module_specifier (
            tools.relative_to_gen (
              tools.join_below (
                codes "gen"
                ∷ codes "ts"
                ∷ ((join (codes "/") (segment ∷ segments)
                      ++ (codes "/" ++ (feature_name (segment ∷ segments) ++ codes "_plugin")))
                    ++ codes "_pb.js")
                ∷ [])))
  unfolding normalize_proto_source join
  messages_specifier-proto_path_of segment segments =
      ap
        (λ t.
          normalize_module_specifier
            (tools.relative_to_gen (tools.join_below (codes "gen" ∷ codes "ts" ∷ t ∷ []))))
        (path_suffix (join (codes "/") (segment ∷ segments)) (feature_name (segment ∷ segments)))
