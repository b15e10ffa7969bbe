-- ===== src/Tests/Texts.antt =====
-- Runs of the URL and base64 codecs.
use server_frame.Prelude.{ℕ, ◌*◌, ◌/◌, ◌≤◌, ◌≡◌, refl, List, true, false, length, arith}
use server_frame.Prelude.Text.{codes}
use server_frame.Util.Url.{url_encode, url_decode}
use server_frame.Util.Url.Reference.{escape, url_encode-escape}
use server_frame.Util.Url.RoundTrip.{url_decode-url_encode}
use server_frame.Util.Base64.{base64encode, base64decode, decode_blocks, encode_block, digit}
use server_frame.Util.Base64.RoundTrip.{base64decode-base64encode}
use server_frame.Util.Base64.Bounds.{decode_blocks_bounds}

abbrev sentence : List ℕ
sentence = codes "a b+c=1%"

encoded : url_encode true sentence ≡ codes "a+b%2Bc=1%25"
unfolding url_encode
encoded = refl

url_encode-escape_example : url_encode true sentence ≡ escape true sentence
url_encode-escape_example = url_encode-escape true sentence

url_decode-url_encode_example : url_decode true (url_encode false sentence) ≡ sentence
url_decode-url_encode_example = url_decode-url_encode false true sentence (λ e. refl) (omega arith)

man : base64encode (codes "Man!") ≡ codes "TWFuIQ=="
unfolding base64encode encode_block digit
man = refl

base64decode-base64encode_example : base64decode (base64encode (codes "Man!")) ≡ codes "Man!"
base64decode-base64encode_example = base64decode-base64encode (codes "Man!") (omega arith)

decode_blocks_bounds_example :
    length (decode_blocks (codes "TWFuIQ==")).0 ≤ length (codes "TWFuIQ==") * 3 / 4
decode_blocks_bounds_example = decode_blocks_bounds (codes "TWFuIQ==")
