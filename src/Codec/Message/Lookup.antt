-- ===== src/Codec/Message/Lookup.antt =====
-- What a receiver finds in a message under a name.
use project_trans.Base.{ℕ, ◌≡◌, refl, true, false, some, ==_refl, List, [], ◌∷◌, ◌++◌, All}
use project_trans.Binary.{Host}
use project_trans.Codec.Parse.{parsed}
use project_trans.Codec.Field.{SerializeField}
use project_trans.Codec.Message.{
  SerializeCodec, SerializeConfig, new, deserialize, find_field, same_name,
}
use project_trans.Codec.Message.{get_parsed_field}
use project_trans.Codec.Message.Build.{entries}
use project_trans.Codec.Message.RoundTrip.{IsMessage, message, deserialize-message}

same_name_refl : (name : List ℕ) → same_name name name ≡ true
unfolding same_name
same_name_refl [] = refl
same_name_refl (b ∷ bs) = rw (==_refl b, same_name_refl bs)

-- No field of the list has the name.
abbrev pub Unnamed : List ℕ → List SerializeField → Type 0
Unnamed name fs = All (λ g. same_name g.name name ≡ false) fs

find_field-entries :
    (fs gs : List SerializeField) (f : SerializeField)
    → Unnamed f.name fs
    → find_field f.name (entries (fs ++ (f ∷ gs))) ≡ some f
unfolding find_field entries
find_field-entries [] gs f u = rw (same_name_refl f.name)
find_field-entries (g ∷ fs) gs f (u, us) = rw u (find_field-entries fs gs f us)

-- A new codec on any machine that deserializes a message built on any machine reads no byte outside
-- it, and finds under a name the field that was serialized with it, with its type and its value bytes,
-- if no other field of the message has that name and the message is within the limits of `IsMessage`.
pub get_parsed_field-message :
    (writer reader : Host) (config config' : SerializeConfig) (fs gs : List SerializeField)
    (f : SerializeField)
    → IsMessage config (fs ++ (f ∷ gs))
    → Unnamed f.name fs
    → Unnamed f.name gs
    → (d : SerializeCodec) × (deserialize reader
          (message writer config (fs ++ (f ∷ gs)))
          (new config')
        ≡ parsed d)
      × (get_parsed_field f.name d ≡ some f)
get_parsed_field-message writer reader config config' fs gs f m u _ = (
  record (new config') {
    byte_array_parsed = message writer config (fs ++ (f ∷ gs));
    data_map_parsed = (new config').data_map_parsed ++ entries (fs ++ (f ∷ gs));
  },
  deserialize-message writer config (fs ++ (f ∷ gs)) m reader (new config'),
  unfold get_parsed_field new in find_field-entries fs gs f u,
)
