-- ===== src/Manifest/Refs.antt =====
-- What the names in the document of manifest.go stand for.
use sticky_overseer.Base.{
  ◌≡◌, refl, String, Bool, true, Option, List, [], ◌∷◌, ◌++◌, ◌&&◌, ite, text_eq, contains, arith,
}
use sticky_overseer.Actions.{ActionInfo}
use sticky_overseer.Manifest.{build_manifest, build_manifest_types, build_manifest_messages}
use sticky_overseer.Manifest.Types.{
  ManifestField, manifest_field, Fields, end, field, AnyValue, nil, text, boolean, of_field, of_map,
  Entries, no_entries, entry, ManifestType, ManifestMessage, WsManifest, type_ref,
}
use sticky_overseer.Manifest.PoolTypes
use sticky_overseer.Manifest.TaskTypes
use sticky_overseer.Manifest.Requests
use sticky_overseer.Manifest.Events
use sticky_overseer.Manifest.Answers

-- The names that a field refers to, at any depth.
unfoldable mutual
  pub refs_of : ManifestField → List String
  refs_of
        (manifest_field type_ ref description required default_ ui_hint values fields items
          value_type) =
      ite (text_eq ref "") [] (ref ∷ [])
      ++ refs_of_fields fields
      ++ refs_of_value items
      ++ refs_of_value value_type

  pub refs_of_fields : Fields → List String
  refs_of_fields end = []
  refs_of_fields (field name f fs) = refs_of f ++ refs_of_fields fs

  pub refs_of_value : AnyValue → List String
  refs_of_value nil = []
  refs_of_value (text s) = []
  refs_of_value (boolean b) = []
  refs_of_value (of_field f) = refs_of f
  refs_of_value (of_map es) = refs_of_entries es

  pub refs_of_entries : Entries → List String
  refs_of_entries no_entries = []
  refs_of_entries (entry name v es) = refs_of_value v ++ refs_of_entries es

abbrev pub refs_of_named : List (String × ManifestField) → List String
refs_of_named [] = []
refs_of_named ((name, f) ∷ fs) = refs_of f ++ refs_of_named fs

abbrev pub refs_of_types : List (String × ManifestType) → List String
refs_of_types [] = []
refs_of_types ((name, t) ∷ ts) =
    refs_of_named t.fields
    ++ refs_of_value t.items
    ++ refs_of_value t.value_type
    ++ refs_of_types ts

abbrev pub refs_of_messages : List (String × ManifestMessage) → List String
refs_of_messages [] = []
refs_of_messages ((name, m) ∷ ms) = refs_of_named m.fields ++ refs_of_messages ms

-- The references in a document, and the names that they may have.
abbrev pub refs_in : WsManifest → List String
refs_in m = refs_of_types m.types ++ refs_of_messages m.messages

abbrev pub type_refs {ℓ} : {A : Type ℓ} → List (String × A) → List String
type_refs [] = []
type_refs ((name, a) ∷ types) = type_ref name ∷ type_refs types

abbrev all_in : List String → List String → Bool
all_in [] ys = true
all_in (x ∷ xs) ys = contains x ys && all_in xs ys

contains-all_in :
    (r : String) (xs ys : List String)
    → all_in xs ys ≡ true
    → contains r xs ≡ true
    → contains r ys ≡ true
contains-all_in r [] ys a c = absurd (ground (arith, c))
contains-all_in r (x ∷ xs) ys a c = ground (arith, a, c, contains-all_in r xs ys)

types_closed :
    all_in
      (refs_of_types build_manifest_types ++ refs_of_messages build_manifest_messages)
      (type_refs build_manifest_types)
    ≡ true
unfolding build_manifest_types build_manifest_messages PoolTypes.pool_types TaskTypes.task_types
    Requests.request_messages Events.event_messages Answers.answer_messages refs_of text_eq
types_closed = refl

-- Whatever the actions and the version of the server, each reference in the document, at any depth
-- of the types and the messages, is to a type that the document has.
pub build_manifest-type_refs :
    (actions : Option (List (String × ActionInfo))) (version r : String)
    → contains r (refs_in (build_manifest actions version)) ≡ true
    → contains r (type_refs (build_manifest actions version).types) ≡ true
unfolding build_manifest
build_manifest-type_refs actions version r c =
    contains-all_in r
      (refs_of_types build_manifest_types ++ refs_of_messages build_manifest_messages)
      (type_refs build_manifest_types) types_closed c
