-- ===== src/Keyshare/Stored.antt =====
-- What the stores hold after a write.
use binance_tss_demo.Prelude.{
  bind_ok, ok_same, ◌≡◌, ◌⊎◌, inl, inr, refl, sym, Bytes, List, [], ◌∷◌, Option, none, some, Result,
  ok, err, ℕ, take,
}
use binance_tss_demo.Storage.{File, Disk, write_text, store_steps, store_text, Json, IsJson}
use binance_tss_demo.Topology.{NetworkTopology}
use binance_tss_demo.Topology.Store.{store_topology, stored_topology}
use binance_tss_demo.Keyshare.Ecdsa
use binance_tss_demo.Keyshare.Frost.{
  Curve, FrostKeyshare, FrostKeyshareStore, each_share, keyshare_text, keyshare_of,
}
use binance_tss_demo.Keyshare.Frost

store_steps-ok :
    (opening : Option Bytes) (writing : Option (ℕ × Bytes)) (text : Result Bytes Bytes)
    (file : File)
    → (store_steps opening writing text file).1 ≡ none
    → (b : Bytes) × (text ≡ ok b) × ((store_steps opening writing text file).0 ≡ some b)
unfolding store_steps write_text
store_steps-ok (some e) writing text file h = absurd (cc)
store_steps-ok none writing (err e) file h = absurd (cc)
store_steps-ok none (some (n, e)) (ok b) file h = absurd (cc)
store_steps-ok none none (ok b) file h = (b, refl, refl)

-- A store without an error has made the text, and the file holds it.
store_text-ok :
    (disk : Disk) (text : Result Bytes Bytes) (file : File)
    → (store_text disk text file).1 ≡ none
    → (b : Bytes) × (text ≡ ok b) × ((store_text disk text file).0 ≡ some b)
unfolding store_text
store_text-ok disk text file h = store_steps-ok disk.open_error disk.write_error text file h

-- How a store with an error leaves the file: as it was, if the file was not opened, or else empty, if
-- there is no text, or with the start of the text.
abbrev pub IsLeft : Option Bytes → Result Bytes Bytes → File → File → Type 0
IsLeft opening text before after =
    (((e : Bytes) × (opening ≡ some e)) × (after ≡ before))
    ⊎ (((e : Bytes) × (text ≡ err e)) × (after ≡ some []))
    ⊎ ((b : Bytes) × (n : ℕ) × (text ≡ ok b) × (after ≡ some (take n b)))

store_steps-error :
    (opening : Option Bytes) (writing : Option (ℕ × Bytes)) (text : Result Bytes Bytes)
    (file : File) (e : Bytes)
    → (store_steps opening writing text file).1 ≡ some e
    → IsLeft opening text file (store_steps opening writing text file).0
unfolding store_steps write_text
store_steps-error (some f) writing text file e h = inl ((f, refl), refl)
store_steps-error none writing (err f) file e h = inr (inl ((f, refl), refl))
store_steps-error none (some (n, f)) (ok b) file e h = inr (inr (b, n, refl, refl))
store_steps-error none none (ok b) file e h = absurd (cc)

-- A store of a FROST key share that returns an error leaves the file as it was only if it could not be
-- opened: or else it is empty, if the key share has no text, or holds the first bytes of the text.
pub store_keyshare-Left :
    (curve : Curve) (json : Json FrostKeyshareStore) (disk : Disk) (keyshare : FrostKeyshare curve)
    (file : File) (e : Bytes)
    → (Frost.store_keyshare curve json disk keyshare file).1 ≡ some e
    → IsLeft disk.open_error
        (keyshare_text curve json keyshare)
        file
        (Frost.store_keyshare curve json disk keyshare file).0
unfolding Frost.store_keyshare store_text
store_keyshare-Left curve json disk keyshare file e h =
    store_steps-error disk.open_error disk.write_error (keyshare_text curve json keyshare) file e h

-- An ECDSA key share that is stored without an error is read back.
pub get-store_ecdsa :
    {Key : Type 0} (json : Json (Ecdsa.EcdsaKeyshare Key)) (disk : Disk)
    (keyshare : Ecdsa.EcdsaKeyshare Key) (file : File)
    → IsJson json
    → (Ecdsa.store_keyshare json disk keyshare file).1 ≡ none
    → Ecdsa.get_keyshare json (Ecdsa.store_keyshare json disk keyshare file).0 ≡ ok keyshare
unfolding Ecdsa.store_keyshare Ecdsa.get_keyshare
get-store_ecdsa json disk keyshare file is stored =
    let (b, text, kept) = store_text-ok disk (json.marshal keyshare) file stored in
    rw (kept, is.round_trip keyshare b text) refl

-- A topology that is stored without an error is read back.
pub topology-store_topology :
    (json : Json NetworkTopology) (disk : Disk) (topology : NetworkTopology) (file : File)
    → IsJson json
    → (store_topology json disk topology file).1 ≡ none
    → stored_topology json (store_topology json disk topology file).0 ≡ ok topology
unfolding store_topology stored_topology
topology-store_topology json disk topology file is stored =
    let (b, text, kept) = store_text-ok disk (json.marshal topology) file stored in
    rw (kept) (is.round_trip topology b text)

-- Binary forms are read back.
pub record IsCurve (curve : Curve) : Type 0 where
  pub scalar_round :
      (s : curve.Scalar) (b : Bytes)
      → curve.marshal_scalar s ≡ ok b
      → curve.unmarshal_scalar b ≡ ok s
  pub point_round :
      (p : curve.Point) (b : Bytes) → curve.marshal_point p ≡ ok b → curve.unmarshal_point b ≡ ok p

each_share-round :
    {A B : Type 0} (to : A → Result Bytes B) (from : B → Result Bytes A)
    → ((a : A) (b : B) → to a ≡ ok b → from b ≡ ok a)
    → (shares : List (Bytes × A)) (out : List (Bytes × B)) → each_share to shares ≡ ok out
    → each_share from out ≡ ok shares
unfolding each_share
each_share-round to from round [] out h = rw (sym (ok_same h)) refl
each_share-round to from round ((id, a) ∷ shares) out h =
    let (b, made, more) = bind_ok (to a) _ out h in
    let (rest, each, same) = bind_ok (each_share to shares) _ out more in
    rw (sym (ok_same same), round a b made, each_share-round to from round shares rest each) refl

keyshare-round :
    (curve : Curve) (json : Json FrostKeyshareStore) (keyshare : FrostKeyshare curve) (text : Bytes)
    → IsCurve curve
    → IsJson json
    → keyshare_text curve json keyshare ≡ ok text
    → (stored : FrostKeyshareStore) × (json.unmarshal text ≡ ok stored)
      × (keyshare_of curve json stored ≡ ok keyshare)
unfolding keyshare_text keyshare_of
keyshare-round curve json keyshare text is is_json h =
    let (private, made, more) =
      bind_ok (curve.marshal_scalar keyshare.key.private_share) _ text h in
    let (shares, each, marshalled) =
      bind_ok (each_share curve.marshal_point keyshare.key.verification_shares) _ text more in
    (
      _,
      is_json.round_trip _ text marshalled,
      rw
          (
            is.scalar_round _ private made,
            each_share-round curve.marshal_point curve.unmarshal_point is.point_round _ shares each,
          )
          refl,
    )

-- A FROST key share that is stored without an error is read back, when the binary forms of scalars and
-- points and the JSON text are read back.
pub get_keyshare-store_keyshare :
    (curve : Curve) (json : Json FrostKeyshareStore) (disk : Disk) (keyshare : FrostKeyshare curve)
    (file : File)
    → IsCurve curve
    → IsJson json
    → (Frost.store_keyshare curve json disk keyshare file).1 ≡ none
    → Frost.get_keyshare curve json (Frost.store_keyshare curve json disk keyshare file).0
      ≡ ok keyshare
unfolding Frost.store_keyshare Frost.get_keyshare
get_keyshare-store_keyshare curve json disk keyshare file is is_json stored =
    let (b, text, kept) = store_text-ok disk (keyshare_text curve json keyshare) file stored in
    let (made, read, whole) = keyshare-round curve json keyshare b is is_json text in
    rw (kept, read) whole
