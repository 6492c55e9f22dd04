-- ===== src/Plan/Script.antt =====
-- The upgrade script of internal/plan/os.go, from internal/plan/templates/os-upgrade.sh.tpl.
use Prim.Native.String.{◌++◌}
use elemental_lifecycle_mana.Prelude.{
  String, Bool, true, false, Option, none, some, List, [], ◌∷◌, ◌==◌, any, if◌then◌else◌,
}
use elemental_lifecycle_mana.Errors.{Result, ok, then_with, with_context}
use elemental_lifecycle_mana.Phase.Names.{quote}
use elemental_lifecycle_mana.Config.{Tag}

unfoldable pub concat_texts : List String → String
concat_texts [] = ""
concat_texts (s ∷ ss) = s ++ concat_texts ss

-- The text of the template up to the repository, between it and the version, from there to the
-- conditional part, and after that part.
abbrev pub before_repo : List String
before_repo =
    "set -e\n" ∷ "\n" ∷ "HOST=\"${HOST:-/host}\"\n"
    ∷ "DEPLOYMENT=\"${DEPLOYMENT:-$HOST/etc/elemental/deployment.yaml}\"\n" ∷ "OS_IMAGE_REPO=\""
    ∷ []

abbrev pub before_version : List String
before_version = "\"\n" ∷ "OS_VERSION=\"" ∷ []

abbrev pub before_fetch : List String
before_fetch =
    "\"\n" ∷ "INCOMING=\"$OS_IMAGE_REPO:$OS_VERSION\"\n"
    ∷ "CURRENT=$(grep -F \"uri: oci://$OS_IMAGE_REPO\" \"$DEPLOYMENT\" 2>/dev/null || true)\n"
    ∷ "\n"
    ∷ "# On fresh systems, we have a sourceOS specified with raw (e.g. raw://../squashfs.img) data\n"
    ∷ "# instead of from an OCI image, so for instances that CURRENT is empty we\n"
    ∷ "# assume that this is a fresh system and proceed with the upgrade.\n"
    ∷ "if [ -n \"$CURRENT\" ]; then\n"
    ∷ "\t# Extract the prefix (e.g. \"uri: oci://\") before the OS_IMAGE_REPO,\n"
    ∷ "\t# so that it can be stripped in the next step.\n"
    ∷ "    prefix=${CURRENT%%\"$OS_IMAGE_REPO\"*}\n" ∷ "\tCURRENT=${CURRENT#\"$prefix\"}\n"
    ∷ "    if [ \"$CURRENT\" = \"$INCOMING\" ]; then\n"
    ∷ "        echo \"Active OS image is already at correct version $OS_VERSION. Upgrade has been performed.\"\n"
    ∷ "        exit 0\n" ∷ "    fi\n" ∷ "fi\n" ∷ "\n" ∷ []

abbrev pub after_fetch : List String
after_fetch = "upgrader \"$INCOMING\" && chroot /host reboot\n" ∷ []

-- `strconv.ParseBool`; `none` is its error.
unfoldable pub parse_bool : String → Option Bool
parse_bool s =
    if any (λ t. s == t) ("1" ∷ "t" ∷ "T" ∷ "true" ∷ "TRUE" ∷ "True" ∷ [])
    then some true
    else if any (λ t. s == t) ("0" ∷ "f" ∷ "F" ∷ "false" ∷ "FALSE" ∷ "False" ∷ [])
    then some false
    else none

-- `err == nil && value`.
unfoldable pub fetch_remote : Option Bool → Bool
fetch_remote none = false
fetch_remote (some b) = b

-- `tmpl.Execute`.
unfoldable pub render_script : Bool → String → String → String
unfolding concat_texts
render_script fetch repo version =
    concat_texts before_repo
    ++ (repo
        ++ (concat_texts before_version
            ++ (version
                ++ (concat_texts before_fetch
                    ++ ((if fetch then "USE_LOCAL_IMAGES=false " else "")
                        ++ concat_texts after_fetch)))))

-- `name.NewTag` and the value of E3CTL_FETCH_REMOTE are parameters.
unfoldable pub parse_upgrade_script : (String → Result Tag) → String → String → Result String
unfolding render_script parse_bool fetch_remote quote
parse_upgrade_script new_tag env os_image =
    then_with (with_context ("parsing OS image " ++ quote os_image) (new_tag os_image))
      λ ref. ok (render_script (fetch_remote (parse_bool env)) ref.context_name ref.tag_str)
