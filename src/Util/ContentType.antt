-- ===== src/Util/ContentType.antt =====
-- `contentTypeMap` and `contentTypeByExtension` of src/util/utils.cpp.
use nawa.Common.{List, [], ◌∷◌, ◌++◌, Option, none, some, Bytes, codes}
use nawa.Common.Table.{text_eq, lookup}
use nawa.Util.Strings.{to_lowercase}

content_types_a : List (Bytes × Bytes)
content_types_a =
    (codes "aac", codes "audio/aac")
    ∷ (codes "arc", codes "application/x-freearc")
    ∷ (codes "avi", codes "video/x-msvideo")
    ∷ (codes "azw", codes "application/vnd.amazon.ebook")
    ∷ (codes "bmp", codes "image/bmp")
    ∷ (codes "bz", codes "application/x-bzip")
    ∷ (codes "bz2", codes "application/x-bzip2")
    ∷ (codes "csh", codes "application/x-csh")
    ∷ (codes "css", codes "text/css")
    ∷ (codes "csv", codes "text/csv")
    ∷ (codes "deb", codes "application/vnd.debian.binary-package")
    ∷ (codes "doc", codes "application/msword")
    ∷ (codes "dot", codes "application/msword")
    ∷ (
      codes "docx",
      codes "application/vnd.openxmlformats-officedocument.wordprocessingml.document",
    )
    ∷ (
      codes "dotx",
      codes "application/vnd.openxmlformats-officedocument.wordprocessingml.document",
    )
    ∷ (codes "eot", codes "application/vnd.ms-fontobject")
    ∷ (codes "epub", codes "application/epub+zip")
    ∷ (codes "flv", codes "video/x-flv")
    ∷ (codes "f4v", codes "video/mp4")
    ∷ (codes "f4a", codes "audio/mp4")
    ∷ (codes "gif", codes "image/gif")
    ∷ (codes "gz", codes "application/x-gzip")
    ∷ (codes "htm", codes "text/html")
    ∷ (codes "html", codes "text/html")
    ∷ (codes "ico", codes "image/vnd.microsoft.icon")
    ∷ (codes "ics", codes "text/calendar")
    ∷ (codes "jar", codes "application/java-archive")
    ∷ (codes "java", codes "text/plain")
    ∷ (codes "jpg", codes "image/jpeg")
    ∷ (codes "jpeg", codes "image/jpeg")
    ∷ []

content_types_b : List (Bytes × Bytes)
content_types_b =
    (codes "js", codes "text/javascript")
    ∷ (codes "json", codes "application/json")
    ∷ (codes "mid", codes "audio/x-midi")
    ∷ (codes "midi", codes "audio/x-midi")
    ∷ (codes "mjs", codes "application/javascript")
    ∷ (codes "mp3", codes "audio/mpeg")
    ∷ (codes "mpeg", codes "video/mpeg")
    ∷ (codes "mp4", codes "application/mp4")
    ∷ (codes "m4v", codes "video/mp4")
    ∷ (codes "m4a", codes "audio/mp4")
    ∷ (codes "mpkg", codes "application/vnd.apple.installer+xml")
    ∷ (codes "odp", codes "application/vnd.oasis.opendocument.presentation")
    ∷ (codes "otp", codes "application/vnd.oasis.opendocument.presentation")
    ∷ (codes "ods", codes "application/vnd.oasis.opendocument.spreadsheet")
    ∷ (codes "ots", codes "application/vnd.oasis.opendocument.spreadsheet")
    ∷ (codes "odt", codes "application/vnd.oasis.opendocument.text")
    ∷ (codes "ott", codes "application/vnd.oasis.opendocument.text")
    ∷ (codes "ogg", codes "application/ogg")
    ∷ (codes "ogx", codes "application/ogg")
    ∷ (codes "oga", codes "audio/ogg")
    ∷ (codes "ogv", codes "video/ogg")
    ∷ (codes "otf", codes "font/otf")
    ∷ (codes "png", codes "image/png")
    ∷ (codes "pdf", codes "application/pdf")
    ∷ (codes "ppt", codes "application/vnd.ms-powerpoint")
    ∷ (
      codes "pptx",
      codes "application/vnd.openxmlformats-officedocument.presentationml.presentation",
    )
    ∷ (codes "rar", codes "application/x-rar-compressed")
    ∷ (codes "rtf", codes "application/rtf")
    ∷ (codes "sh", codes "application/x-sh")
    ∷ (codes "svg", codes "image/svg+xml")
    ∷ []

content_types_c : List (Bytes × Bytes)
content_types_c =
    (codes "swf", codes "application/x-shockwave-flash")
    ∷ (codes "tar", codes "application/x-tar")
    ∷ (codes "tif", codes "image/tiff")
    ∷ (codes "tiff", codes "image/tiff")
    ∷ (codes "ttf", codes "font/ttf")
    ∷ (codes "txt", codes "text/plain")
    ∷ (codes "vsd", codes "application/vnd.visio")
    ∷ (codes "wav", codes "audio/wav")
    ∷ (codes "weba", codes "audio/webm")
    ∷ (codes "webm", codes "video/webm")
    ∷ (codes "webp", codes "image/webp")
    ∷ (codes "woff", codes "font/woff")
    ∷ (codes "woff2", codes "font/woff2")
    ∷ (codes "xhtml", codes "application/xhtml+xml")
    ∷ (codes "xls", codes "application/vnd.ms-excel")
    ∷ (codes "xlt", codes "application/vnd.ms-excel")
    ∷ (codes "xlsx", codes "application/vnd.openxmlformats-officedocument.spreadsheetml.sheet")
    ∷ (codes "xltx", codes "application/vnd.openxmlformats-officedocument.spreadsheetml.sheet")
    ∷ (codes "xml", codes "application/xml")
    ∷ (codes "xul", codes "application/vnd.mozilla.xul+xml")
    ∷ (codes "xz", codes "application/x-xz")
    ∷ (codes "zip", codes "application/zip")
    ∷ (codes "3gp", codes "video/3gpp")
    ∷ (codes "3g2", codes "video/3gpp2")
    ∷ (codes "7z", codes "application/x-7z-compressed")
    ∷ []

unfoldable pub content_type_map : List (Bytes × Bytes)
unfolding content_types_a content_types_b content_types_c
content_type_map = content_types_a ++ (content_types_b ++ content_types_c)

or_octets : Option Bytes → Bytes
or_octets none = codes "application/octet-stream"
or_octets (some t) = t

unfoldable pub content_type_by_extension : Bytes → Bytes
unfolding content_type_map or_octets to_lowercase
content_type_by_extension extension = or_octets (lookup (to_lowercase extension) content_type_map)
