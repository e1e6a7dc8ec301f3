-- ===== src/Tests/Multipart.antt =====
-- A message of two parts, built and delivered.
use callstack.Prelude.{List, [], Option, none, some, Text, codes, replicate, ◌++◌}
use callstack.Pdu.Segments.{MultipartSubmitPdu, build_multipart_submit_pdus}

abbrev number : Text
number = codes "+4915112"

abbrev text : Text
text = replicate 152 b'a' ++ codes "{hi"

abbrev built : Option (List MultipartSubmitPdu)
built = build_multipart_submit_pdus number text none 300

abbrev parts_of : Option (List MultipartSubmitPdu) → List MultipartSubmitPdu
parts_of none = []
parts_of (some ps) = ps

abbrev two_parts : List MultipartSubmitPdu
two_parts = parts_of built
