-- ===== src/Update/Oci.antt =====
-- pkg/oci/artifact.go: an artifact of an OCI registry, with a single layer.
pub mod Laws
use trivy.Base.{Bool, not, List, [], ◌∷◌, ◌++◌, Option, none, some, if◌then◌else◌}
use trivy.Base.Text.{Str, str, ◌==◌}
use trivy.Base.Result.{Result, ok, err, Error, message, wrap, context, ◌>>=◌}

-- A layer of go-containerregistry, over a state S of files: its media type, its size, its content
-- (Compressed), with an error or not.
pub record Layer : Type 0 where
  pub media_type : Result Str
  pub size : Result Str
  pub compressed : Result Str

-- An image of go-containerregistry.
pub record Image : Type 0 where
  pub layers : Result (List Layer)
  pub digest : Result Str

-- name.ParseReference with remote.Image
pub record Registry (R : Type 0) : Type 0 where
  pub parse_reference : Str → Result R
  pub remote_image : R → Result Image

pub record Artifact : Type 0 where
  pub image : Image
  pub layer : Layer

-- The only layer of an image.
unfoldable pub single_layer : List Layer → Result Layer
single_layer (layer ∷ []) = ok layer
single_layer _ = err (message (str "OCI artifact must be a single layer"))

-- The image of an option, or that of the repository.
unfoldable pub image_of : {R : Type 0} → Registry R → Str → Option Image → Result Image
image_of registry repo (some img) = ok img
image_of registry repo none = do
  ref ← context (str "repository name error (" ++ (repo ++ str ")")) (registry.parse_reference repo)
  context (str "OCI repository error") (registry.remote_image ref)

-- NewArtifact
unfoldable pub new_artifact : {R : Type 0} → Registry R → Str → Str → Option Image → Result Artifact
unfolding image_of single_layer
new_artifact registry repo media_type img = do
  image ← image_of registry repo img
  layers ← context (str "OCI layer error") image.layers
  layer ← single_layer layers
  found ← context (str "media type error") layer.media_type
  (if not (media_type == found)
      then err (message (str "unacceptable media type: " ++ found))
      else ok (record { image = image; layer = layer }))

-- What Download calls: CreateTemp with io.Copy of a content, and the unpacking of the file into a
-- directory, on a state S of files
pub record Files (S : Type 0) : Type 0 where
  pub create_temp : S → Result S
  pub copy : Str → S → Result S
  pub unpack : Str → Str → S → Result S

-- Artifact.Download
unfoldable pub download : {S : Type 0} → Files S → Artifact → Str → S → Result S
download files a dir s = do
  size ← context (str "size error") a.layer.size
  content ← context (str "failed to fetch the layer") a.layer.compressed
  created ← context (str "failed to create a temp file") (files.create_temp s)
  copied ← context (str "copy error") (files.copy content created)
  context (str "download error") (files.unpack content dir copied)

-- Artifact.Digest
unfoldable pub digest : Artifact → Result Str
digest a = context (str "digest error") a.image.digest
