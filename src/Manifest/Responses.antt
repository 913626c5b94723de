-- ===== src/Manifest/Responses.antt =====
-- The operations of manifest.go against its messages.
use Prim.Native.String.{◌++◌ as append}
use sticky_overseer.Base.{
  ◌≡◌, refl, String, Bool, true, false, Option, none, some, List, [], ◌∷◌, ◌++◌, ◌&&◌, ◌||◌, ite,
  text_eq, lookup, contains, arith,
}
use sticky_overseer.Manifest.{build_manifest_messages}
use sticky_overseer.Manifest.Types.{
  ManifestMessage, ManifestOp, ManifestOpDirect, ManifestOpSideEffects,
}
use sticky_overseer.Manifest.Requests
use sticky_overseer.Manifest.Events
use sticky_overseer.Manifest.Answers
use sticky_overseer.Manifest.Operations.{build_manifest_operations}

-- Is there a message of this type and direction?
unfoldable pub has_message : (direction type_ : String) → List (String × ManifestMessage) → Bool
has_message direction type_ messages = elim (lookup type_ messages) [
  | none ↦ false
  | some m ↦ ite (text_eq m.direction direction) true false
]

-- The messages that an operation names as its responses.
abbrev pub direct_responses : Option ManifestOpDirect → List String
direct_responses none = []
direct_responses (some d) = d.success ++ d.error

abbrev pub side_effects : Option ManifestOpSideEffects → List String
side_effects none = []
side_effects (some s) = s.broadcast ++ s.broadcast_subscribers

abbrev pub responses_of : ManifestOp → List String
responses_of op = direct_responses (op.responses).direct ++ side_effects (op.responses).side_effects

abbrev pub is_sent_by_server : String → Bool
is_sent_by_server name =
    has_message "s2c" name build_manifest_messages
    || has_message "s2c" (append name "_response") build_manifest_messages

abbrev all : (String → Bool) → List String → Bool
all p [] = true
all p (x ∷ xs) = p x && all p xs

abbrev is_consistent : ManifestOp → Bool
is_consistent op =
    has_message "c2s" op.send build_manifest_messages && all is_sent_by_server (responses_of op)

abbrev all_consistent : List (String × ManifestOp) → Bool
all_consistent [] = true
all_consistent ((name, op) ∷ ops) = is_consistent op && all_consistent ops

all_lem :
    (p : String → Bool) (x : String) (xs : List String)
    → all p xs ≡ true
    → contains x xs ≡ true
    → p x ≡ true
all_lem p x [] a c = absurd (ground (arith, c))
all_lem p x (y ∷ xs) a c = ground (arith, a, c, all_lem p x xs)

all_consistent_lem :
    (name : String) (op : ManifestOp) (ops : List (String × ManifestOp))
    → all_consistent ops ≡ true
    → lookup name ops ≡ some op
    → is_consistent op ≡ true
unfolding lookup
all_consistent_lem name op [] a e = absurd (ground (arith, e))
all_consistent_lem name op ((n, o) ∷ ops) a e = ground (arith, a, e, all_consistent_lem name op ops)

operations_consistent : all_consistent build_manifest_operations ≡ true
unfolding build_manifest_operations build_manifest_messages Requests.request_messages
    Events.event_messages Answers.answer_messages has_message lookup text_eq
operations_consistent = refl

-- For each operation of the document and each response that it names: the operation sends a message
-- that the document has from the client to the server, and the response is a message of the document
-- from the server to the client, under that name or under that name with "_response" appended.
pub build_manifest_operations-is_sent_by_server :
    (name : String) (op : ManifestOp) (r : String)
    → lookup name build_manifest_operations ≡ some op
    → contains r (responses_of op) ≡ true
    → (has_message "c2s" op.send build_manifest_messages ≡ true) × (is_sent_by_server r ≡ true)
build_manifest_operations-is_sent_by_server name op r e k =
    let c = all_consistent_lem name op build_manifest_operations operations_consistent e in
    (ground (arith, c), all_lem is_sent_by_server r (responses_of op) (ground (arith, c)) k)
