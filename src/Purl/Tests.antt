-- ===== src/Purl/Tests.antt =====
-- The theorems on package URLs at concrete packages.
use trivy.Base.{◌≡◌, ◌≢◌, ◌↔◌, ◌⊎◌, [], ◌∷◌, ◌++◌, none}
use trivy.Base.Text.{Str, str}
use trivy.Base.Result.{panicked}
use trivy.Scanner.{Metadata}
use trivy.Samples.{installed_package, purl_libraries}
use trivy.Purl.{new_package_url, purl_type, parse_pkg_name}
use trivy.Purl.Laws.{IsDistribution, new_package_url-panicked, parse_pkg_name_lem}
use mathlib.Core.List.{Memᴰ}

parse_pkg_name_lem_example :
    ¬ Memᴰ b'/' (parse_pkg_name (str "golang.org/x/net")).1
    × ((parse_pkg_name (str "golang.org/x/net") ≡ ([], str "golang.org/x/net"))
        ⊎ (str "golang.org/x/net"
            ≡ (parse_pkg_name (str "golang.org/x/net")).0
              ++ b'/' ∷ (parse_pkg_name (str "golang.org/x/net")).1))
parse_pkg_name_lem_example = parse_pkg_name_lem (str "golang.org/x/net")

purl_libraries_lem : (digest : Str) → purl_libraries.new_digest digest ≢ panicked
purl_libraries_lem digest e = cc

abbrev metadata : Metadata
metadata = record {
  size = 0;
  os = none;
  image_id = [];
  diff_ids = [];
  repo_tags = [];
  repo_digests = [];
}

new_package_url-panicked_example :
    (new_package_url purl_libraries
        (str "debian")
        metadata
        (str "amd64")
        (installed_package (str "bash") (str "5.0") [])
      ≡ panicked)
    ↔ ((purl_type purl_libraries (str "debian") ≢ purl_libraries.oci)
        × (IsDistribution purl_libraries (purl_type purl_libraries (str "debian"))
            × (metadata.os ≡ none)))
new_package_url-panicked_example =
    new_package_url-panicked purl_libraries purl_libraries_lem (str "debian") metadata (str "amd64")
      (installed_package (str "bash") (str "5.0") [])
