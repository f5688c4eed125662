-- ===== src/Config/Runtime.antt =====
-- internal/config/validation.go: the runtime of a machine and its image.
use vci.Base.{
  Bool, true, false, not, ◌&&◌, ◌||◌, Option, none, some, [], ◌∷◌, ltb, ◌==◌, if◌then◌else◌, length,
  drop, any, all, Result, ok, err, Text, codes, text_eq, has_prefix, is_empty,
}
use vci.Config.Hosted.{span}
use vci.Config.Strings.{contains, is_blank, is_digit, is_hex}
use vci.Config.Types.{Machine}
use vci.Model.Names.{is_alnum, is_name_char}

pub data RuntimeError : Type 0 where
  runtime_with_image runtime_with_snapshot image_required unsupported_runtime : RuntimeError
  image_empty image_blank image_flag image_scheme image_is_path image_not_allowed : RuntimeError

-- `([A-Za-z0-9._-]+:[0-9]+/)?` at the start of an image. A tag that is as well a port cannot be
-- followed by a separator, so that the group matches wherever it can.
abbrev skip_port : Text → Text → Text
skip_port s [] = s
skip_port s (c ∷ cs) =
    let (digits, rest) = span is_digit cs in
    if c == b':' && not (is_empty digits) && has_prefix (codes "/") rest then drop 1 rest else s

unfoldable pub skip_registry : Text → Text
skip_registry s =
    let (name, rest) = span is_name_char s in if is_empty name then s else skip_port s rest

-- `[A-Za-z0-9][A-Za-z0-9._-]*(/[A-Za-z0-9][A-Za-z0-9._-]*)*`, of which the rest is returned; the flag
-- says that a segment begins.
unfoldable pub skip_segments : Bool → Text → Option Text
skip_segments true [] = none
skip_segments true (c ∷ cs) = if is_alnum c then skip_segments false cs else none
skip_segments false [] = some []
skip_segments false (c ∷ cs) =
    let inside = skip_segments false cs in
    let begins = skip_segments true cs in
    if is_name_char c then inside else if c == b'/' then begins else some (c ∷ cs)

-- `(:[A-Za-z0-9._-]{1,128})?`
unfoldable pub skip_tag : Text → Option Text
skip_tag [] = some []
skip_tag (c ∷ cs) =
    let (tag, rest) = span is_name_char cs in
    if not (c == b':')
    then some (c ∷ cs)
    else if is_empty tag || ltb 128 (length tag)
    then none
    else some rest

abbrev sha_prefix : Text
sha_prefix = codes "@sha256:"

-- `(@sha256:[0-9a-f]{64})?$`
unfoldable pub is_digest : Text → Bool
is_digest s =
    is_empty s
    || has_prefix sha_prefix s
      && all is_hex (drop (length sha_prefix) s)
      && length (drop (length sha_prefix) s) == 64

abbrev tag_and_digest : Option Text → Bool
tag_and_digest none = false
tag_and_digest (some s) = is_digest s

abbrev after_segments : Option Text → Bool
after_segments none = false
after_segments (some s) = tag_and_digest (skip_tag s)

-- `allowedRuntimeImage`
unfoldable pub allowed_runtime_image : Text → Bool
allowed_runtime_image s = after_segments (skip_segments true (skip_registry s))

unfoldable pub validate_runtime_image : Text → Result RuntimeError (Unit {0})
validate_runtime_image image =
    if is_empty image
    then err image_empty
    else if any is_blank image
    then err image_blank
    else if has_prefix (codes "-") image
    then err image_flag
    else if contains image (codes "://")
    then err image_scheme
    else if has_prefix (codes "/") image
        || has_prefix (codes "./") image
        || contains image (codes "../")
    then err image_is_path
    else if not (allowed_runtime_image image)
    then err image_not_allowed
    else ok tt

unfoldable pub validate_machine_runtime : Machine → Result RuntimeError (Unit {0})
validate_machine_runtime m =
    if is_empty m.runtime
    then (if not (is_empty m.image)
        then err runtime_with_image
        else if not (is_empty m.snapshot)
        then err runtime_with_snapshot
        else ok tt)
    else if text_eq m.runtime (codes "docker")
    then (if is_empty m.image
        then err image_required
        else if not (is_empty m.snapshot)
        then err runtime_with_snapshot
        else validate_runtime_image m.image)
    else if text_eq m.runtime (codes "vm")
    then (if not (is_empty m.image)
        then err runtime_with_image
        else if is_empty m.snapshot
        then err image_required
        else validate_runtime_image m.snapshot)
    else err unsupported_runtime
