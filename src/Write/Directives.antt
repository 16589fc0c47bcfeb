-- ===== src/Write/Directives.antt =====
-- `removeIncludeDirectives` of src/preproc.cpp.
use xevxml.Platform.{Platform}
