-- ===== src/Discover/Entries.antt =====
-- What the answer to "discover" of src/connection.cpp holds.
use metricq_cpp.Prelude.{
  ◌≡◌, refl, ap, sym, ◌∙◌, true, List, [], ◌∷◌, ◌++◌, Option, String, str_eq, if◌then◌else◌,
}
use metricq_cpp.Prelude.Int.{ℤ}
use metricq_cpp.Prelude.Outcome.{Result, ok, bind}
use metricq_cpp.Json.{Json}
use metricq_cpp.Discover.{put_all, always, of_version, of_hostname, handle_discover_rpc}

module _ (j : Json) where
  open j use {Value, Number}

  -- The last entry of a key, or else what `value` has for it.
  abbrev pub last_entry : List (String × Value) → String → Result Value → Result Value
  last_entry [] k before = before
  last_entry ((key, entry) ∷ entries) k before =
      last_entry entries k (if str_eq key k then ok entry else before)

  put_all-at :
      (entries : List (String × Value)) (value : Value)
      → j.is_object value ≡ true
      → (value' : Value) × (put_all j entries value ≡ ok value')
        × (j.is_object value' ≡ true)
        × ((k : String) → j.at value' k ≡ last_entry entries k (j.at value k))
  unfolding put_all
  put_all-at [] value h = (value, refl, h, λ k. refl)
  put_all-at ((key, entry) ∷ entries) value h =
      let (value₁, put_eq, h₁) = j.put-object value key entry h in
      let (value₂, all_eq, h₂, at_eq) = put_all-at entries value₁ h₁ in
      (
        value₂,
        rw put_eq all_eq,
        h₂,
        λ k. at_eq k ∙ ap (last_entry entries k) (j.at-put value value₁ key entry h put_eq k),
      )

  last_entry-append :
      (xs ys : List (String × Value)) (k : String) (before : Result Value)
      → last_entry (xs ++ ys) k before ≡ last_entry ys k (last_entry xs k before)
  last_entry-append [] ys k before = refl
  last_entry-append ((key, entry) ∷ xs) ys k before =
      last_entry-append xs ys k (if str_eq key k then ok entry else before)

  -- The answer is always given. It is an object with the entries that every client tells, the version of
  -- the client if this is not empty, and the name of the host if that is known.
  pub handle_discover_rpc-entries :
      (format_iso : ℤ → String) (seconds : ℤ → Number) (metricq_version : String)
      (current_time starting_time : ℤ) (version : String) (hostname : Option String)
      → (response : Value) × (handle_discover_rpc j format_iso seconds metricq_version current_time
            starting_time version hostname
          ≡ ok response)
        × (j.is_object response ≡ true)
        × ((k : String)
            → j.at response k
              ≡ last_entry
                  (always j format_iso seconds metricq_version current_time starting_time
                    ++ (of_version j version ++ of_hostname j hostname))
                  k
                  (j.at j.object k))
  unfolding handle_discover_rpc
  handle_discover_rpc-entries format_iso seconds metricq_version current_time starting_time version
        hostname =
      let entries = always j format_iso seconds metricq_version current_time starting_time in
      let (r₁, eq₁, h₁, at₁) = put_all-at entries j.object j.is_object-object in
      let (r₂, eq₂, h₂, at₂) = put_all-at (of_version j version) r₁ h₁ in
      let (r₃, eq₃, h₃, at₃) = put_all-at (of_hostname j hostname) r₂ h₂ in
      (
        r₃,
        ap
              (λ r. bind r (λ x.
                bind (put_all j (of_version j version) x) (put_all j (of_hostname j hostname))))
              eq₁
            ∙ ap (λ r. bind r (put_all j (of_hostname j hostname))) eq₂
            ∙ eq₃,
        h₃,
        λ k.
            at₃ k
            ∙ ap (last_entry (of_hostname j hostname) k) (at₂ k)
            ∙ ap
                (λ b. last_entry (of_hostname j hostname) k (last_entry (of_version j version) k b))
                (at₁ k)
            ∙ sym (
                last_entry-append (of_version j version) (of_hostname j hostname) k
                  (last_entry entries k (j.at j.object k))),
      )
