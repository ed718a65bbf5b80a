-- ===== src/Metadata/Entries.antt =====
-- The setters and getters of src/metadata.cpp: what is set is got, and nothing else changes.
use metricq_cpp.Prelude.{
  ◌≡◌, ◌≢◌, refl, Bool, true, false, Bool-cases, inl, inr, String, str_eq, if◌then◌else◌, eq_iff,
}
use metricq_cpp.Prelude.Outcome.{Result, ok}
use metricq_cpp.Json.{Json}
use metricq_cpp.Metadata.{
  Metadata, Scope, last, next, point, unknown, set_entry, get_text, set_unit, unit, set_quantity,
  quantity, set_description, description, rate, set_chunk_size, chunk_size, set_scope, scope,
  scope_of,
}

-- The entries that are texts.
pub data TextEntry : Type 0 where
  unit_entry quantity_entry description_entry : TextEntry

abbrev pub same_entry : TextEntry → TextEntry → Bool
same_entry unit_entry unit_entry = true
same_entry quantity_entry quantity_entry = true
same_entry description_entry description_entry = true
same_entry _ _ = false

module _ (j : Json) where
  open j use {
    Value, Number, null, text, number, zero_number, is_zero, is_null, is_object, contains, at, put,
    get_string, get_number,
  }

  abbrev pub set_text : TextEntry → String → Metadata j → Result (Metadata j)
  set_text unit_entry s = set_unit j s
  set_text quantity_entry s = set_quantity j s
  set_text description_entry s = set_description j s

  abbrev pub text_of : TextEntry → Metadata j → Result String
  text_of unit_entry = unit j
  text_of quantity_entry = quantity j
  text_of description_entry = description j

  -- The metadata is a JSON object.
  abbrev pub IsObject : Metadata j → Type 0
  IsObject d = is_object d.metadata ≡ true

  -- After `d` the entry `key` is `value`, and the other keys are as they were.
  record Holds (key : String) (value : Value) (d d' : Metadata j) : Type 0 where
    is_object_still : IsObject d'
    has :
        (k : String)
        → contains d'.metadata k ≡ (if str_eq key k then true else contains d.metadata k)
    gives : (k : String) → at d'.metadata k ≡ (if str_eq key k then ok value else at d.metadata k)

  set_entry-Holds :
      (key : String) (value : Value) (d : Metadata j)
      → IsObject d
      → (d' : Metadata j) × (set_entry j key value d ≡ ok d') × Holds key value d d'
  set_entry-Holds key value d h =
      let (v', e, o) = j.put-object d.metadata key value h in
      (
        record { metadata = v' },
        rw e,
        record {
          is_object_still = o;
          has = j.contains-put d.metadata v' key value e;
          gives = j.at-put d.metadata v' key value h e;
        },
      )

  module _ {key : String} {value : Value} {d d' : Metadata j} (held : Holds key value d d') where
    get_text_other : (k : String) → str_eq key k ≡ false → get_text j k d' ≡ get_text j k d
    get_text_other k e = rw (held.has k, held.gives k, e)

    get_text_same : (s : String) → value ≡ text s → get_text j key d' ≡ ok s
    get_text_same s e =
        rw (held.has key, held.gives key, (eq_iff key key).1 refl, e) (j.get_string-text s)

  -- Setting a text on a JSON object succeeds, and leaves an object. The entry then reads as the text that was set;
  -- every other text entry, the rate, the chunk size and the scope read as before.
  pub text_of-set_text :
      (e : TextEntry) (s : String) (d : Metadata j)
      → IsObject d
      → (d' : Metadata j) × (set_text e s d ≡ ok d')
        × IsObject d'
        × ((k : TextEntry) → text_of k d' ≡ (if same_entry e k then ok s else text_of k d))
        × (rate j d' ≡ rate j d)
        × (chunk_size j d' ≡ chunk_size j d)
        × (scope j d' ≡ scope j d)
  unfolding set_unit set_quantity set_description unit quantity description rate chunk_size scope
  text_of-set_text unit_entry s d h =
      let (d', e, held) = set_entry-Holds "unit" (text s) d h in
      (
        d',
        e,
        held.is_object_still,
        elim [
          | unit_entry ↦ get_text_same held s refl
          | quantity_entry ↦ get_text_other held "quantity" refl
          | description_entry ↦ get_text_other held "description" refl
        ],
        rw (held.has "rate", held.gives "rate"),
        rw (held.has "chunkSize", held.gives "chunkSize"),
        rw (held.has "scope", held.gives "scope"),
      )
  text_of-set_text quantity_entry s d h =
      let (d', e, held) = set_entry-Holds "quantity" (text s) d h in
      (
        d',
        e,
        held.is_object_still,
        elim [
          | unit_entry ↦ get_text_other held "unit" refl
          | quantity_entry ↦ get_text_same held s refl
          | description_entry ↦ get_text_other held "description" refl
        ],
        rw (held.has "rate", held.gives "rate"),
        rw (held.has "chunkSize", held.gives "chunkSize"),
        rw (held.has "scope", held.gives "scope"),
      )
  text_of-set_text description_entry s d h =
      let (d', e, held) = set_entry-Holds "description" (text s) d h in
      (
        d',
        e,
        held.is_object_still,
        elim [
          | unit_entry ↦ get_text_other held "unit" refl
          | quantity_entry ↦ get_text_other held "quantity" refl
          | description_entry ↦ get_text_same held s refl
        ],
        rw (held.has "rate", held.gives "rate"),
        rw (held.has "chunkSize", held.gives "chunkSize"),
        rw (held.has "scope", held.gives "scope"),
      )

  -- Setting a chunk size on a JSON object succeeds, and leaves an object. The size reads as it was
  -- set, and one of 0 as 0, though it is stored as `null`; the rate and the scope read as before.
  pub chunk_size-set_chunk_size :
      (s : Number) (d : Metadata j)
      → IsObject d
      → (d' : Metadata j) × (set_chunk_size j s d ≡ ok d')
        × IsObject d'
        × (chunk_size j d' ≡ ok (if is_zero s then zero_number else s))
        × (rate j d' ≡ rate j d)
        × (scope j d' ≡ scope j d)
  unfolding set_chunk_size chunk_size rate scope
  chunk_size-set_chunk_size s d h = elim (Bool-cases (is_zero s)) [
    | inl z ↦
        let (d', e, held) = set_entry-Holds "chunkSize" null d h in
        (
          d',
          rw z e,
          held.is_object_still,
          rw (held.has "chunkSize", held.gives "chunkSize", z, j.is_null-null),
          rw (held.has "rate", held.gives "rate"),
          rw (held.has "scope", held.gives "scope"),
        )
    | inr z ↦
        let (d', e, held) = set_entry-Holds "chunkSize" (number s) d h in
        (
          d',
          rw z e,
          held.is_object_still,
          rw (held.has "chunkSize", held.gives "chunkSize", z, j.is_null-number s)
              (j.get_number-number s),
          rw (held.has "rate", held.gives "rate"),
          rw (held.has "scope", held.gives "scope"),
        )
  ]

  -- The entry of a scope that is stored by its name.
  scope_lem :
      (name : String) (s : Scope) (d : Metadata j)
      → IsObject d
      → scope_of j name ≡ ok s
      → (d' : Metadata j) × (set_entry j "scope" (text name) d ≡ ok d')
        × IsObject d'
        × (scope j d' ≡ ok s)
        × (rate j d' ≡ rate j d)
        × (chunk_size j d' ≡ chunk_size j d)
  unfolding scope rate chunk_size
  scope_lem name s d h named =
      let (d', e, held) = set_entry-Holds "scope" (text name) d h in
      (
        d',
        e,
        held.is_object_still,
        rw (held.has "scope", held.gives "scope", j.get_string-text name) named,
        rw (held.has "rate", held.gives "rate"),
        rw (held.has "chunkSize", held.gives "chunkSize"),
      )

  -- Setting a scope other than `unknown` on a JSON object succeeds, and leaves an object. The scope
  -- reads as it was set; the rate and the chunk size read as before.
  pub scope-set_scope :
      (s : Scope) (d : Metadata j)
      → IsObject d
      → s ≢ unknown
      → (d' : Metadata j) × (set_scope j s d ≡ ok d')
        × IsObject d'
        × (scope j d' ≡ ok s)
        × (rate j d' ≡ rate j d)
        × (chunk_size j d' ≡ chunk_size j d)
  unfolding set_scope scope rate chunk_size
  scope-set_scope last d h ne = scope_lem "last" last d h refl
  scope-set_scope next d h ne = scope_lem "next" next d h refl
  scope-set_scope point d h ne = scope_lem "point" point d h refl
  scope-set_scope unknown d h ne = absurd (ne refl)
