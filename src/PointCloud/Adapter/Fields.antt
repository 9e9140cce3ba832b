-- ===== src/PointCloud/Adapter/Fields.antt =====
-- The fields of a cloud by their names, as pointcloud_xyzirt_to_xyzirc_node.cpp and its readers find them.
use wtbcar_autoware_nav.Prelude.{
  ℕ, ◌+◌, ◌^◌, ◌<◌, ◌≤◌, ◌≡◌, ◌≢◌, ◌↔◌, refl, sym, ap, ◌∙◌, String, str_eq, eq_iff, Bool-cases,
  true, false, inl, inr, ltb, List, [], ◌∷◌, some, arith,
}
use wtbcar_autoware_nav.Prelude.Int.{pos, negsuc}
use wtbcar_autoware_nav.PointCloud.{PointField, Cloud, field_offset, is_negative, slice, to_int}
use wtbcar_autoware_nav.PointCloud.Adapter.{read_float32, read_uint16}

-- The first of the fields that has this name.
pub data First (name : String) (field : PointField) : List PointField → Type 0 where
  here : {fields : List PointField} → field.name ≡ name → First name field (field ∷ fields)
  later :
      {other : PointField} {fields : List PointField}
      → other.name ≢ name
      → First name field fields
      → First name field (other ∷ fields)

-- No field has this name.
abbrev pub Lacks : String → List PointField → Type 0
Lacks name [] = Unit
Lacks name (field ∷ fields) = (field.name ≢ name) × Lacks name fields

-- A field of this name, at an offset that an `int` holds.
abbrev pub Named : Cloud → String → Type 0
Named cloud name = (field : PointField) × (First name field cloud.fields × (field.offset < 2 ^ 31))

-- A field of this name and type lies at this offset in a point, with so many bytes.
pub record At (cloud : Cloud) (name : String) (datatype size offset : ℕ) : Type 0 where
  pub field : PointField
  pub first : First name field cloud.fields
  pub typed : field.datatype ≡ datatype
  pub placed : field.offset ≡ offset
  pub inside : offset + size ≤ cloud.point_step
  pub small : offset < 2 ^ 31

true≢false : true ≢ false
true≢false e = ground arith

pub apart : (s t : String) → str_eq s t ≡ false → s ≢ t
apart s t h e = true≢false (sym ((eq_iff s t).1 e) ∙ h)

differs : (s t : String) → s ≢ t → str_eq s t ≡ false
differs s t h = elim (Bool-cases (str_eq s t)) [ inl e ↦ absurd (h ((eq_iff s t).0 e)) | inr e ↦ e ]

field_offset-First :
    (name : String) (field : PointField) (fields : List PointField)
    → First name field fields
    → field_offset fields name ≡ to_int field.offset
unfolding field_offset
field_offset-First name field [] x = elim x [ ]
field_offset-First name field (other ∷ fields) (here e) = rw ((eq_iff other.name name).1 e) refl
field_offset-First name field (other ∷ fields) (later ne rest) =
    rw (differs other.name name ne) (field_offset-First name field fields rest)

field_offset-Lacks :
    (name : String) (fields : List PointField)
    → Lacks name fields
    → field_offset fields name ≡ negsuc 0
unfolding field_offset
field_offset-Lacks name [] h = refl
field_offset-Lacks name (field ∷ fields) h =
    rw (differs field.name name h.0) (field_offset-Lacks name fields h.1)

to_int_small : (n : ℕ) → n < 2 ^ 31 → to_int n ≡ pos n
unfolding to_int
to_int_small n h = ground arith

small_to_int : (n : ℕ) → is_negative (to_int n) ≡ false → n < 2 ^ 31
unfolding to_int is_negative
small_to_int n h = elim (Bool-cases (ltb n (2 ^ 31))) [
  | inl e ↦ ground arith
  | inr e ↦ absurd (true≢false (sym (rw e refl) ∙ h))
]

offset-At :
    (cloud : Cloud) (name : String) (datatype size offset : ℕ)
    → At cloud name datatype size offset
    → field_offset cloud.fields name ≡ pos offset
offset-At cloud name datatype size offset at =
    field_offset-First name at.field cloud.fields at.first
    ∙ ap to_int at.placed
    ∙ to_int_small offset at.small

pub there-At :
    (cloud : Cloud) (name : String) (datatype size offset : ℕ)
    → At cloud name datatype size offset
    → is_negative (field_offset cloud.fields name) ≡ false
unfolding is_negative
there-At cloud name datatype size offset at =
    ap is_negative (offset-At cloud name datatype size offset at)

pub gone-Lacks :
    (cloud : Cloud) (name : String)
    → Lacks name cloud.fields
    → is_negative (field_offset cloud.fields name) ≡ true
unfolding is_negative
gone-Lacks cloud name h = ap is_negative (field_offset-Lacks name cloud.fields h)

pub read_float32-At :
    (cloud : Cloud) (name : String) (datatype offset point : ℕ)
    → At cloud name datatype 4 offset
    → read_float32 cloud point (field_offset cloud.fields name)
      ≡ slice cloud.payload (point + offset) 4
unfolding read_float32
read_float32-At cloud name datatype offset point at =
    let fits : ltb cloud.point_step (offset + 4) ≡ false = ground (arith, at.inside) in
    ap (read_float32 cloud point) (offset-At cloud name datatype 4 offset at) ∙ rw fits refl

pub read_uint16-At :
    (cloud : Cloud) (name : String) (datatype offset point : ℕ)
    → At cloud name datatype 2 offset
    → read_uint16 cloud point (field_offset cloud.fields name)
      ≡ slice cloud.payload (point + offset) 2
unfolding read_uint16
read_uint16-At cloud name datatype offset point at =
    let fits : ltb cloud.point_step (offset + 2) ≡ false = ground (arith, at.inside) in
    ap (read_uint16 cloud point) (offset-At cloud name datatype 2 offset at) ∙ rw fits refl

pub read_uint16-Lacks :
    (cloud : Cloud) (name : String) (point : ℕ)
    → Lacks name cloud.fields
    → read_uint16 cloud point (field_offset cloud.fields name) ≡ some (0 ∷ 0 ∷ [])
unfolding read_uint16
read_uint16-Lacks cloud name point h =
    ap (read_uint16 cloud point) (field_offset-Lacks name cloud.fields h)

found-First :
    (name : String) (fields : List PointField)
    → is_negative (field_offset fields name) ≡ false
    → (field : PointField) × (First name field fields × (field.offset < 2 ^ 31))
unfolding field_offset is_negative
found-First name [] h = absurd (true≢false h)
found-First name (field ∷ fields) h = elim (Bool-cases (str_eq field.name name)) [
  | inl e ↦ (field, (here ((eq_iff field.name name).0 e), small_to_int field.offset (rw e at h)))
  | inr e ↦
      (let (g, (first, small)) = found-First name fields (rw e at h) in
        (g, (later (λ same. true≢false (sym ((eq_iff field.name name).1 same) ∙ e)) first, small)))
]

-- A search of the fields succeeds exactly if a field has the name and an offset that an `int` holds.
pub there-Named :
    (cloud : Cloud) (name : String)
    → (is_negative (field_offset cloud.fields name) ≡ false) ↔ Named cloud name
unfolding is_negative
there-Named cloud name = (
  found-First name cloud.fields,
  λ (field, (first, small)).
      ap is_negative
        (field_offset-First name field cloud.fields first ∙ to_int_small field.offset small),
)
