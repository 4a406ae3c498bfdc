-- ===== src/Descriptor/Registry/Contents.antt =====
-- internal/descriptor/registry.go: what a file declares, by the full names.
use grpc_gateway.Prelude.{List, [], ◌∷◌, ◌++◌, Option, Text, All, join}
use grpc_gateway.Descriptor.Protos.{
  message_proto, MessageProtos, no_messages, and_messages, ProtogenFile,
}
use grpc_gateway.Descriptor.Types.{dot, package_components}

-- The full name of what stands at a path of names in a file of this package.
abbrev pub full_name : Option Text → List Text → Text
full_name package_name path = join dot (([] ∷ []) ++ (package_components package_name ++ path))

-- `M` holds of the path of every message, and `E` of the path of every enum in a message, the nested
-- messages included.
abbrev pub AllDeclared : (M E : List Text → Type 0) → List Text → MessageProtos → Type 0
AllDeclared M E outers no_messages = Unit
AllDeclared M E outers (and_messages (message_proto name fields oneofs nested enums) mds) =
    M (outers ++ name ∷ [])
    × AllDeclared M E (outers ++ name ∷ []) nested
    × All (λ ed. E ((outers ++ name ∷ []) ++ ed.name ∷ [])) enums
    × AllDeclared M E outers mds

-- The same of a file, with its enums outside of messages.
abbrev pub AllInFile : (M E : Text → Type 0) → ProtogenFile → Type 0
AllInFile M E file =
    AllDeclared (λ p. M (full_name file.proto.package_name p))
      (λ p. E (full_name file.proto.package_name p)) [] file.proto.messages
    × All (λ ed. E (full_name file.proto.package_name (ed.name ∷ []))) file.proto.enums

pub All-map :
    {A : Type 0} (P Q : A → Type 0) (xs : List A) → ((a : A) → P a → Q a) → All P xs → All Q xs
All-map P Q [] k h = tt
All-map P Q (x ∷ xs) k (h, hs) = (k x h, All-map P Q xs k hs)

pub AllDeclared-map :
    (M M' E E' : List Text → Type 0) (outers : List Text) (mds : MessageProtos)
    → ((p : List Text) → M p → M' p)
    → ((p : List Text) → E p → E' p)
    → AllDeclared M E outers mds
    → AllDeclared M' E' outers mds
AllDeclared-map M M' E E' outers no_messages f g h = tt
AllDeclared-map M M' E E' outers (and_messages (message_proto name fields oneofs nested enums) mds)
      f g (m, ns, es, ms) =
    (
      f _ m,
      AllDeclared-map M M' E E' (outers ++ name ∷ []) nested f g ns,
      All-map _ _ enums (λ ed. g _) es,
      AllDeclared-map M M' E E' outers mds f g ms,
    )

pub AllInFile-map :
    (M M' E E' : Text → Type 0) (file : ProtogenFile)
    → ((k : Text) → M k → M' k)
    → ((k : Text) → E k → E' k)
    → AllInFile M E file
    → AllInFile M' E' file
AllInFile-map M M' E E' file f g (ms, es) = (
  AllDeclared-map _ _ _ _ [] file.proto.messages (λ p. f (full_name file.proto.package_name p))
      (λ p. g (full_name file.proto.package_name p)) ms,
  All-map _ _ file.proto.enums (λ ed. g (full_name file.proto.package_name (ed.name ∷ []))) es,
)
