-- ===== src/Interop/Path/Tests.antt =====
-- Runs of `sanitize_path_component`, with no normalisation.
use triptorrent.Base.{◌≡◌, refl, ok, err}
use triptorrent.Base.Text.{ascii}
use triptorrent.Interop.Path.{Text, windows_reserved, structural, sanitize_path_component}
use triptorrent.Interop.Path.Safe.{SafeName, sanitize_path_component_sound}

abbrev as_is : Text → Text
as_is text = text

plain_name : sanitize_path_component as_is (ascii "a.b") ≡ ok (ascii "a.b")
unfolding sanitize_path_component
plain_name = refl

device_name : sanitize_path_component as_is (ascii "Com1.txt") ≡ err windows_reserved
unfolding sanitize_path_component
device_name = refl

parent_name : sanitize_path_component as_is (ascii "..") ≡ err structural
unfolding sanitize_path_component
parent_name = refl

sanitize_path_component_sound_example : (ascii "a.b" ≡ as_is (ascii "a.b")) × SafeName (ascii "a.b")
sanitize_path_component_sound_example =
    sanitize_path_component_sound as_is (ascii "a.b") (ascii "a.b") plain_name
