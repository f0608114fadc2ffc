-- ===== src/Update/Oci/Laws.antt =====
-- What an artifact of pkg/oci/artifact.go is.
use trivy.Base.{◌≡◌, ◌↔◌, inl, inr, refl, List, [], ◌∷◌, ◌++◌, Option, ap}
use trivy.Base.Text.{Str, str, ==_cases, ==_refl}
use trivy.Base.Result.{ok, err, message, context, context-ok, bind_ok}
use trivy.Update.Oci.{Registry, Artifact, Image, Layer, image_of, single_layer, new_artifact}

single_layer-ok :
    (layers : List Layer) (layer : Layer) → single_layer layers ≡ ok layer → layers ≡ layer ∷ []
unfolding single_layer
single_layer-ok [] layer e = absurd cc
single_layer-ok (l ∷ []) layer e = let same : l ≡ layer = cc in rw same refl
single_layer-ok (l ∷ k ∷ ls) layer e = absurd cc

-- An artifact is made exactly of an image that is given or found and whose layers are one, of the
-- media type that is asked for.
pub new_artifact-ok :
    {R : Type 0} (registry : Registry R) (repo media_type : Str) (img : Option Image) (a : Artifact)
    → (new_artifact registry repo media_type img ≡ ok a) ↔ (
        (image_of registry repo img ≡ ok a.image)
        × (a.image.layers ≡ ok (a.layer ∷ []))
        × (a.layer.media_type ≡ ok media_type))
unfolding new_artifact single_layer
new_artifact-ok registry repo media_type img a = (to, from)
  where
    from :
        (image_of registry repo img ≡ ok a.image)
          × (a.image.layers ≡ ok (a.layer ∷ []))
          × (a.layer.media_type ≡ ok media_type)
        → new_artifact registry repo media_type img ≡ ok a
    from (i, l, m) = rw (i, l, m, ==_refl media_type, new_artifact) refl

    to :
        new_artifact registry repo media_type img ≡ ok a
        → (image_of registry repo img ≡ ok a.image)
          × (a.image.layers ≡ ok (a.layer ∷ []))
          × (a.layer.media_type ≡ ok media_type)
    to e =
        let (image, i, k) = bind_ok (image_of registry repo img) _ e in
        let (layers, l, k') = bind_ok (context _ image.layers) _ k in
        let (layer, o, k'') = bind_ok (single_layer layers) _ k' in
        let (found, m, final) = bind_ok (context _ layer.media_type) _ k'' in
        let made : Artifact = record { image = image; layer = layer } in
        elim (==_cases media_type found) [
          | inl (b, same) ↦
              let last : ok made ≡ ok a = rw b at final in
              let it : made ≡ a = cc in
              let image_same : image ≡ a.image = ap (λ x. x.image) it in
              let layer_same : layer ≡ a.layer = ap (λ x. x.layer) it in
              (
                rw image_same at i,
                (let e' : layers ≡ layer ∷ [] = single_layer-ok layers layer o in
                    rw (← layer_same, ← e', ← image_same) (context-ok _ _ l)),
                rw (← same) at (rw layer_same at (context-ok _ _ m)),
              )
          | inr (b, _) ↦ absurd (
              let last : err (message (str "unacceptable media type: " ++ found)) ≡ ok a =
                rw b at final in
              cc)
        ]
