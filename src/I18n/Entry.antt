-- ===== src/I18n/Entry.antt =====
-- An entry of a dictionary of web/src/lib/i18n.tsx.
use tenancit.Base.{String, Text, codes}

abbrev pub entry : (key message : String) → Text × Text
entry key message = (codes key, codes message)
