-- ===== src/Statement/Io/Kinds.antt =====
-- The attributes of Fortran's input and output statements (the enumeration `iostmtAttrib` and the map
-- `g_iostmtAttrib` of src/stmt.cpp), and the classes of these statements.
use xevxml.Prelude.{
  ℕ, Bool, String, Bytes, Option, none, some, List, [], ◌∷◌, ◌==◌, codes, if◌then◌else◌,
}
use xevxml.Write.Attributes.{same_bytes}

-- `enum iostmtAttrib`, each under the name that the map has for it
pub data IoAttrib : Type 0 where
  io_fmt io_iolength io_unit io_iostat io_err io_iomsg io_file io_access io_form io_recl io_blank
        io_exist io_opened io_number io_named io_name io_sequential io_direct io_formatted
        io_unformatted io_nextrec io_position io_action io_read io_write io_readwrite io_delim
        io_pad io_asynchronous io_decimal io_stream io_size io_pending io_status io_round io_sign
        io_advance io_rec io_end io_eor io_nml :
      IoAttrib

-- Backspace, endfile, flush, rewind and wait take their inner nodes from `STMT_DEFAULT`.
pub data IoClass : Type 0 where
  backspace_statement close_statement endfile_statement flush_statement inquire_statement
        open_statement print_statement read_statement rewind_statement wait_statement
        write_statement :
      IoClass

-- The place of an enumerator.
unfoldable pub enumerator : IoAttrib → ℕ
enumerator io_fmt = 0
enumerator io_iolength = 1
enumerator io_unit = 2
enumerator io_iostat = 3
enumerator io_err = 4
enumerator io_iomsg = 5
enumerator io_file = 6
enumerator io_access = 7
enumerator io_form = 8
enumerator io_recl = 9
enumerator io_blank = 10
enumerator io_exist = 11
enumerator io_opened = 12
enumerator io_number = 13
enumerator io_named = 14
enumerator io_name = 15
enumerator io_sequential = 16
enumerator io_direct = 17
enumerator io_formatted = 18
enumerator io_unformatted = 19
enumerator io_nextrec = 20
enumerator io_position = 21
enumerator io_action = 22
enumerator io_read = 23
enumerator io_write = 24
enumerator io_readwrite = 25
enumerator io_delim = 26
enumerator io_pad = 27
enumerator io_asynchronous = 28
enumerator io_decimal = 29
enumerator io_stream = 30
enumerator io_size = 31
enumerator io_pending = 32
enumerator io_status = 33
enumerator io_round = 34
enumerator io_sign = 35
enumerator io_advance = 36
enumerator io_rec = 37
enumerator io_end = 38
enumerator io_eor = 39
enumerator io_nml = 40

abbrev pub same_attrib : IoAttrib → IoAttrib → Bool
same_attrib a b = enumerator a == enumerator b

-- The entries of `allocIostmtAttrib`.
unfoldable pub attrib_name : IoAttrib → String
attrib_name io_fmt = "fmt"
attrib_name io_iolength = "iolength"
attrib_name io_unit = "unit"
attrib_name io_iostat = "iostat"
attrib_name io_err = "err"
attrib_name io_iomsg = "iomsg"
attrib_name io_file = "file"
attrib_name io_access = "access"
attrib_name io_form = "form"
attrib_name io_recl = "recl"
attrib_name io_blank = "blank"
attrib_name io_exist = "exist"
attrib_name io_opened = "opened"
attrib_name io_number = "number"
attrib_name io_named = "named"
attrib_name io_name = "name"
attrib_name io_sequential = "sequential"
attrib_name io_direct = "direct"
attrib_name io_formatted = "formatted"
attrib_name io_unformatted = "unformatted"
attrib_name io_nextrec = "nextrec"
attrib_name io_position = "position"
attrib_name io_action = "action"
attrib_name io_read = "read"
attrib_name io_write = "write"
attrib_name io_readwrite = "readwrite"
attrib_name io_delim = "delim"
attrib_name io_pad = "pad"
attrib_name io_asynchronous = "asynchronous"
attrib_name io_decimal = "decimal"
attrib_name io_stream = "stream"
attrib_name io_size = "size"
attrib_name io_pending = "pending"
attrib_name io_status = "status"
attrib_name io_round = "round"
attrib_name io_sign = "sign"
attrib_name io_advance = "advance"
attrib_name io_rec = "rec"
attrib_name io_end = "end"
attrib_name io_eor = "eor"
attrib_name io_nml = "nml"

abbrev pub io_attribs : List IoAttrib
io_attribs =
    io_fmt ∷ io_iolength ∷ io_unit ∷ io_iostat ∷ io_err ∷ io_iomsg ∷ io_file ∷ io_access ∷ io_form
    ∷ io_recl ∷ io_blank ∷ io_exist ∷ io_opened ∷ io_number ∷ io_named ∷ io_name ∷ io_sequential
    ∷ io_direct ∷ io_formatted ∷ io_unformatted ∷ io_nextrec ∷ io_position ∷ io_action ∷ io_read
    ∷ io_write ∷ io_readwrite ∷ io_delim ∷ io_pad ∷ io_asynchronous ∷ io_decimal ∷ io_stream
    ∷ io_size ∷ io_pending ∷ io_status ∷ io_round ∷ io_sign ∷ io_advance ∷ io_rec ∷ io_end ∷ io_eor
    ∷ io_nml ∷ []

unfoldable pub find_attrib : List IoAttrib → Bytes → Option IoAttrib
find_attrib [] name = none
find_attrib (a ∷ others) name =
    if same_bytes (codes (attrib_name a)) name then some a else find_attrib others name

-- `g_iostmtAttrib.count(name)`, and the entry
unfoldable pub io_attrib : Bytes → Option IoAttrib
unfolding find_attrib
io_attrib name = find_attrib io_attribs name

unfoldable pub io_class_name : IoClass → String
io_class_name backspace_statement = "SgBackspaceStatement"
io_class_name close_statement = "SgCloseStatement"
io_class_name endfile_statement = "SgEndfileStatement"
io_class_name flush_statement = "SgFlushStatement"
io_class_name inquire_statement = "SgInquireStatement"
io_class_name open_statement = "SgOpenStatement"
io_class_name print_statement = "SgPrintStatement"
io_class_name read_statement = "SgReadStatement"
io_class_name rewind_statement = "SgRewindStatement"
io_class_name wait_statement = "SgWaitStatement"
io_class_name write_statement = "SgWriteStatement"
