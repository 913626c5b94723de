-- ===== src/Manifest/Types.antt =====
-- The types of manifest.go.
use Prim.Native.String.{◌++◌ as append}
use sticky_overseer.Base.{String, Bool, Option, List, []}
use sticky_overseer.Actions.{ActionInfo}

-- A field, a value of the type `any` that the documents hold, and the maps of both.
mutual
  pub data ManifestField : Type 0 where
    manifest_field :
        (type_ ref description : String) (required : Bool) (default_ : AnyValue) (ui_hint : String)
        (values : List String) (fields : Fields) (items value_type : AnyValue)
        → ManifestField

  pub data Fields : Type 0 where
    end : Fields
    field : String → ManifestField → Fields → Fields

  pub data AnyValue : Type 0 where
    nil : AnyValue
    text : String → AnyValue
    boolean : Bool → AnyValue
    of_field : ManifestField → AnyValue
    of_map : Entries → AnyValue

  pub data Entries : Type 0 where
    no_entries : Entries
    entry : String → AnyValue → Entries → Entries

pub record ManifestType : Type 0 where
  pub type_ : String
  pub description : String
  pub values : List String
  pub fields : List (String × ManifestField)
  pub items : AnyValue
  pub value_type : AnyValue

pub record ManifestTransport : Type 0 where
  pub path : String
  pub type_field : String
  pub correlation_field : String

pub record ManifestMessage : Type 0 where
  pub description : String
  pub direction : String
  pub delivery : String
  pub fields : List (String × ManifestField)

pub record ManifestOpDirect : Type 0 where
  pub success : List String
  pub error : List String

pub record ManifestOpSideEffects : Type 0 where
  pub broadcast : List String
  pub broadcast_subscribers : List String

pub record ManifestOpResponses : Type 0 where
  pub direct : Option ManifestOpDirect
  pub side_effects : Option ManifestOpSideEffects

pub record ManifestOp : Type 0 where
  pub description : String
  pub send : String
  pub responses : ManifestOpResponses
  pub notes : String

pub record WsManifest : Type 0 where
  pub schema : String
  pub protocol : String
  pub version : String
  pub description : String
  pub transport : ManifestTransport
  pub types : List (String × ManifestType)
  pub messages : List (String × ManifestMessage)
  pub operations : List (String × ManifestOp)
  pub actions : List ActionInfo

-- The literals of a field by the members that they set.
abbrev pub plain : (type_ description : String) → Bool → ManifestField
plain type_ description required =
    manifest_field type_ "" description required nil "" [] end nil nil

-- `"#/types/" + name`
abbrev pub type_ref : String → String
type_ref name = append "#/types/" name

abbrev pub refers_to : (name description : String) → Bool → ManifestField
refers_to name description required =
    manifest_field "" (type_ref name) description required nil "" [] end nil nil

abbrev pub array_of : AnyValue → String → Bool → ManifestField
array_of items description required =
    manifest_field "array" "" description required nil "" [] end items nil

abbrev pub map_of : AnyValue → String → Bool → ManifestField
map_of value_type description required =
    manifest_field "map" "" description required nil "" [] end nil value_type

-- The literals of a type.
abbrev pub enum_type : String → List String → ManifestType
enum_type description values = record {
  type_ = "enum";
  description = description;
  values = values;
  fields = [];
  items = nil;
  value_type = nil;
}

abbrev pub object_type : String → List (String × ManifestField) → ManifestType
object_type description fields = record {
  type_ = "object";
  description = description;
  values = [];
  fields = fields;
  items = nil;
  value_type = nil;
}
